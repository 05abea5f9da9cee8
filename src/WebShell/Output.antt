-- ===== src/WebShell/Output.antt =====
-- The output of a session, server/internal/webshell/session.go: Subscribe with its unsubscribe, and
-- broadcast. A channel is the number of its subscription. Broadcast looks at the subscribers under
-- the lock and sends without it, so that its two halves are two steps.
use yusui.Prelude.{
  ℕ, ◌+◌, Bool, true, false, ◌&&◌, Option, none, some, List, [], ◌∷◌, ◌++◌, if◌then◌else◌, ltb,
  length, get, put, ◌==◌, mem,
}

-- A chunk is its bytes.
abbrev pub Chunk : Type 0
Chunk = List ℕ

pub record Channel : Type 0 where
  pub held : List Chunk
  pub is_closed : Bool

-- `subs` has the subscribed channels, `opened` counts the subscriptions, and `shut` says whether
-- closedCh is closed.
pub record Output : Type 0 where
  pub chans : List (ℕ × Channel)
  pub subs : List ℕ
  pub opened : ℕ
  pub shut : Bool

unfoldable pub subscribe : Output → ℕ × Output
subscribe o = (
  o.opened,
  record o {
    chans = put o.opened (record { held = []; is_closed = false }) o.chans;
    subs = o.opened ∷ o.subs;
    opened = o.opened + 1;
  },
)

unfoldable pub without : ℕ → List ℕ → List ℕ
without ch [] = []
without ch (c ∷ subs) = let rest = without ch subs in if c == ch then rest else c ∷ rest

abbrev pub closing : Option Channel → Channel
closing none = record { held = []; is_closed = true }
closing (some c) = record c { is_closed = true }

-- A second call finds the channel gone.
unfoldable pub unsubscribe : ℕ → Output → Output
unfolding without
unsubscribe ch o =
    if mem ch o.subs
    then record o { subs = without ch o.subs; chans = put ch (closing (get ch o.chans)) o.chans }
    else o

abbrev pub capacity : ℕ
capacity = 1024

-- How a send of the loop goes on: it panics on a closed channel, waits for the reader of a full one,
-- ends with the session, or is done.
pub data Sent : Type 0 where
  panicked : Sent
  waiting ended done : Output → Sent

-- The `select` on one channel. It takes the closed closedCh if the send is not ready; where both are,
-- `leaves` says which one it picks. A send on a closed channel is ready, and panics. A missing channel
-- is nil, and waits for ever.
abbrev pub send : Chunk → Bool → ℕ → Option Channel → Output → Sent
send chunk leaves ch none o = if o.shut then ended o else waiting o
send chunk leaves ch (some c) o =
    if c.is_closed
    then (if o.shut && leaves then ended o else panicked)
    else if ltb (length c.held) capacity
    then (if o.shut && leaves
        then ended o
        else done (record o { chans = put ch (record c { held = c.held ++ chunk ∷ [] }) o.chans }))
    else if o.shut
    then ended o
    else waiting o

abbrev pub onward : (Output → Sent) → Sent → Sent
onward f panicked = panicked
onward f (waiting o) = waiting o
onward f (ended o) = ended o
onward f (done o) = f o

-- The loop over the channels seen; `picks` has the choice at each channel.
unfoldable pub send_all : Chunk → (ℕ → Bool) → List ℕ → Output → Sent
send_all chunk picks [] o = done o
send_all chunk picks (ch ∷ chs) o =
    onward (send_all chunk picks chs) (send chunk (picks ch) ch (get ch o.chans) o)

-- With nothing between the two halves.
unfoldable pub broadcast : Chunk → (ℕ → Bool) → Output → Sent
unfolding send_all
broadcast chunk picks o = send_all chunk picks o.subs o
