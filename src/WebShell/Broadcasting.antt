-- ===== src/WebShell/Broadcasting.antt =====
-- What the subscribers of server/internal/webshell/session.go get, and what an unsubscribe in the
-- middle of a broadcast does.
use yusui.Prelude.{
  ℕ, ◌≡◌, refl, sym, ap, ◌∙◌, Bool, true, false, Option, none, some, List, [], ◌∷◌, ◌++◌, ltb,
  length, get, put, get-put, mem, ◌==◌, ==_refl, All, arith, Bool-cases, inl, inr,
}
use yusui.WebShell.Output.{
  Chunk, Channel, Output, capacity, Sent, panicked, waiting, ended, done, onward, closing,
  unsubscribe, send, send_all, broadcast, without,
}

-- An open channel with room.
pub record Roomy (o : Output) (ch : ℕ) : Type 0 where
  pub held : List Chunk
  pub here : get ch o.chans ≡ some (record { held = held; is_closed = false })
  pub room : ltb (length held) capacity ≡ true

-- No channel twice.
abbrev pub Once : List ℕ → Type 0
Once [] = Unit
Once (c ∷ cs) = All (λ d. (c == d) ≡ false) cs × Once cs

-- Each of the channels has got the chunk behind what it held, and the other channels are as before.
pub record Delivered (chunk : Chunk) (chs : List ℕ) (o p : Output) : Type 0 where
  pub got :
      All
        (λ ch.
          (held : List Chunk) × (get ch o.chans ≡ some (record { held = held; is_closed = false }))
          × (get ch p.chans ≡ some (record { held = held ++ chunk ∷ []; is_closed = false })))
        chs
  pub others : (j : ℕ) → All (λ ch. (ch == j) ≡ false) chs → get j p.chans ≡ get j o.chans
  pub shut : p.shut ≡ o.shut

module _ (chunk : Chunk) (picks : ℕ → Bool) where
  after_send : ℕ → List Chunk → Output → Output
  after_send ch held o = record o {
    chans = put ch (record { held = held ++ chunk ∷ []; is_closed = false }) o.chans;
  }

  send-Roomy :
      (o : Output) (ch : ℕ) (r : Roomy o ch)
      → o.shut ≡ false
      → send chunk (picks ch) ch (get ch o.chans) o ≡ done (after_send ch r.held o)
  unfolding after_send
  send-Roomy o ch r up = rw (r.here, r.room, up) refl

  sent-get :
      (o : Output) (ch j : ℕ) (held : List Chunk)
      → (ch == j) ≡ false
      → get j (after_send ch held o).chans ≡ get j o.chans
  unfolding after_send
  sent-get o ch j held other = get-put j ch _ o.chans ∙ rw other refl

  sent-here :
      (o : Output) (ch : ℕ) (held : List Chunk)
      → get ch (after_send ch held o).chans
        ≡ some (record { held = held ++ chunk ∷ []; is_closed = false })
  unfolding after_send
  sent-here o ch held = get-put ch ch _ o.chans ∙ rw (==_refl ch) refl

  Roomy-rest :
      (o : Output) (ch : ℕ) (held : List Chunk) (chs : List ℕ)
      → All (λ d. (ch == d) ≡ false) chs
      → All (Roomy o) chs
      → All (Roomy (after_send ch held o)) chs
  Roomy-rest o ch held [] h k = tt
  Roomy-rest o ch held (d ∷ chs) h k = (
    record { held = k.0.held; here = sent-get o ch d held h.0 ∙ k.0.here; room = k.0.room },
    Roomy-rest o ch held chs h.1 k.1,
  )

  flipped :
      (ch : ℕ) (chs : List ℕ) → All (λ d. (ch == d) ≡ false) chs → All (λ d. (d == ch) ≡ false) chs
  flipped ch [] h = tt
  flipped ch (d ∷ chs) h = (ground (arith, h.0), flipped ch chs h.1)

  got-rest :
      (o : Output) (ch : ℕ) (held : List Chunk) (p : Output) (chs : List ℕ)
      → All (λ d. (ch == d) ≡ false) chs
      → All
          (λ d.
            (h : List Chunk) × (get d (after_send ch held o).chans
              ≡ some (record { held = h; is_closed = false }))
            × (get d p.chans ≡ some (record { held = h ++ chunk ∷ []; is_closed = false })))
          chs
      → All
          (λ d.
            (h : List Chunk) × (get d o.chans ≡ some (record { held = h; is_closed = false }))
            × (get d p.chans ≡ some (record { held = h ++ chunk ∷ []; is_closed = false })))
          chs
  got-rest o ch held p [] h k = tt
  got-rest o ch held p (d ∷ chs) h k =
      ((k.0.0, sym (sent-get o ch d held h.0) ∙ k.0.1, k.0.2), got-rest o ch held p chs h.1 k.1)

  send_all-Delivered :
      (chs : List ℕ) (o : Output)
      → o.shut ≡ false
      → Once chs
      → All (Roomy o) chs
      → (p : Output) × (send_all chunk picks chs o ≡ done p) × Delivered chunk chs o p
  unfolding send_all after_send
  send_all-Delivered [] o up h k = (o, refl, record { got = tt; others = λ j _. refl; shut = refl })
  send_all-Delivered (ch ∷ chs) o up h k =
      let next =
        send_all-Delivered chs (after_send ch k.0.held o) up h.1
          (Roomy-rest o ch k.0.held chs h.0 k.1) in
      (
        next.0,
        rw (send_all, send-Roomy o ch k.0 up) next.1,
        record {
          got = (
            (k.0.held, k.0.here, next.2.others ch (flipped ch chs h.0) ∙ sent-here o ch k.0.held),
            got-rest o ch k.0.held next.0 chs h.0 next.2.got,
          );
          others = λ j other. next.2.others j other.1 ∙ sent-get o ch j k.0.held other.0;
          shut = next.2.shut;
        },
      )

  closed_panics :
      (ch : ℕ) (rest : List ℕ) (p : Output) (c : Channel)
      → get ch p.chans ≡ some c
      → c.is_closed ≡ true
      → p.shut ≡ false
      → send_all chunk picks (ch ∷ rest) p ≡ panicked
  unfolding send_all
  closed_panics ch rest p c h k up = rw (h, k, up) refl

  closing_closed : (o : Option Channel) → (closing o).is_closed ≡ true
  closing_closed none = refl
  closing_closed (some c) = refl

  unsubscribe-get :
      (ch : ℕ) (o : Output)
      → mem ch o.subs ≡ true
      → get ch (unsubscribe ch o).chans ≡ some (closing (get ch o.chans))
  unfolding unsubscribe
  unsubscribe-get ch o h = rw h (get-put ch ch _ o.chans ∙ rw (==_refl ch) refl)

  onward-done :
      (f g : Output → Sent) (t : Sent) (s : Sent)
      → ((q : Output) → f q ≡ t → g q ≡ s)
      → (p : Output) → t ≡ done p
      → (r : Sent) → onward f r ≡ t
      → onward g r ≡ s
  onward-done f g t s h p e panicked k = cc
  onward-done f g t s h p e (waiting q) k = cc
  onward-done f g t s h p e (ended q) k = cc
  onward-done f g t s h p e (done q) k = h q k

  send_all-append :
      (pre rest : List ℕ) (o p : Output)
      → send_all chunk picks pre o ≡ done p
      → send_all chunk picks (pre ++ rest) o ≡ send_all chunk picks rest p
  unfolding send_all
  send_all-append [] rest o p h = let same : o ≡ p = cc in ap (send_all chunk picks rest) same
  send_all-append (ch ∷ pre) rest o p h =
      onward-done (send_all chunk picks pre) (send_all chunk picks (pre ++ rest)) (done p)
        (send_all chunk picks rest p) (λ q k. send_all-append pre rest q p k) p refl
        (send chunk (picks ch) ch (get ch o.chans) o) h

  mem-append : (ch : ℕ) (pre rest : List ℕ) → mem ch (pre ++ ch ∷ rest) ≡ true
  mem-append ch [] rest = rw (==_refl ch) refl
  mem-append ch (d ∷ pre) rest = ground (arith, mem-append ch pre rest)

  Roomy-unsubscribe :
      (ch : ℕ) (o : Output) (chs : List ℕ)
      → All (λ d. (ch == d) ≡ false) chs
      → All (Roomy o) chs
      → All (Roomy (unsubscribe ch o)) chs
  unfolding unsubscribe
  Roomy-unsubscribe ch o chs h k = elim (Bool-cases (mem ch o.subs)) [
    | inl at ↦ rw at (closed_rest chs h k)
    | inr other ↦ rw other k
  ]
    where
      closed_rest :
          (ds : List ℕ)
          → All (λ d. (ch == d) ≡ false) ds
          → All (Roomy o) ds
          → All
              (Roomy (record o {
                subs = without ch o.subs;
                chans = put ch (closing (get ch o.chans)) o.chans;
              }))
              ds
      closed_rest [] h k = tt
      closed_rest (d ∷ ds) h k = (
        record {
          held = k.0.held;
          here = get-put d ch _ o.chans ∙ (rw h.0 refl ∙ k.0.here);
          room = k.0.room;
        },
        closed_rest ds h.1 k.1,
      )

  unsubscribe-shut : (ch : ℕ) (o : Output) → (unsubscribe ch o).shut ≡ o.shut
  unfolding unsubscribe
  unsubscribe-shut ch o = elim (Bool-cases (mem ch o.subs)) [
    | inl at ↦ rw at refl
    | inr other ↦ rw other refl
  ]

  -- If nothing comes between its two halves, a broadcast of a session that is not closed puts the chunk behind what each subscriber
  -- holds, as long as the channels have room, and changes no other channel.
  pub broadcast-Delivered :
      (o : Output)
      → o.shut ≡ false
      → Once o.subs
      → All (Roomy o) o.subs
      → (p : Output) × (broadcast chunk picks o ≡ done p) × Delivered chunk o.subs o p
  unfolding broadcast
  broadcast-Delivered o up once room = send_all-Delivered o.subs o up once room

  -- If a subscriber unsubscribes between the two halves of a broadcast of a session that is not closed,
  -- the broadcast panics when it comes to the channel, where the channels before it have room.
  pub unsubscribe-panics :
      (ch : ℕ) (pre rest : List ℕ) (o : Output)
      → o.shut ≡ false
      → o.subs ≡ pre ++ ch ∷ rest
      → Once pre
      → All (λ d. (ch == d) ≡ false) pre
      → All (Roomy o) pre
      → send_all chunk picks o.subs (unsubscribe ch o) ≡ panicked
  unsubscribe-panics ch pre rest o up split once apart room =
      let reached =
        send_all-Delivered pre (unsubscribe ch o) (unsubscribe-shut ch o ∙ up) once
          (Roomy-unsubscribe ch o pre apart room) in
      ap (λ l. send_all chunk picks l (unsubscribe ch o)) split
      ∙ send_all-append pre (ch ∷ rest) (unsubscribe ch o) reached.0 reached.1
      ∙ closed_panics ch rest reached.0 (closing (get ch o.chans))
          (reached.2.others ch (flipped ch pre apart)
            ∙ unsubscribe-get ch o (ap (mem ch) split ∙ mem-append ch pre rest))
          (closing_closed (get ch o.chans)) (reached.2.shut ∙ unsubscribe-shut ch o ∙ up)
