-- ===== src/WebShell/Remote.antt =====
-- A plain terminal at the other end of the session of server/internal/webshell: what the bytes that
-- `terminal` writes do to a line under edit, and which lines they run.
use yusui.Prelude.{ℕ, ◌||◌, List, [], ◌∷◌, ◌++◌, if◌then◌else◌, leb, ◌==◌}
use yusui.WebShell.Gate.{
  Effect, write_stdin, ctrl_c, ctrl_u, backspace, del, newline, enter, drop_last,
}

pub record Tty : Type 0 where
  pub line : List ℕ
  pub executed : List (List ℕ)

unfoldable pub key : ℕ → Tty → Tty
key b t =
    if b == enter || b == newline
    then record { line = []; executed = t.line ∷ t.executed }
    else if b == del || b == backspace
    then record t { line = drop_last t.line }
    else if b == ctrl_c || b == ctrl_u
    then record t { line = [] }
    else if leb 32 b
    then record t { line = t.line ++ b ∷ [] }
    else t

unfoldable pub keys : List ℕ → Tty → Tty
unfolding key
keys [] t = t
keys (b ∷ bs) t = keys bs (key b t)

-- The terminal after the effects, the newest of which stands first.
unfoldable pub terminal_after : List Effect → Tty
unfolding keys
terminal_after [] = record { line = []; executed = [] }
terminal_after (write_stdin bs ∷ effects) = keys bs (terminal_after effects)
terminal_after (_ ∷ effects) = terminal_after effects
