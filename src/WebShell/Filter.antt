-- ===== src/WebShell/Filter.antt =====
-- server/internal/webshell/filter.go: the rules, and the decision on a command line. A line is its
-- bytes. `Re` and `match_string` are the compiled patterns of the regexp package,
-- `compile` makes one.
use yusui.Prelude.{ℕ, Bool, ◌&&◌, List, [], ◌∷◌, ◌++◌, String, if◌then◌else◌, ltb, map}
use Prim.Native.String.{◌++◌ as concat}

pub data Severity : Type 0 where
  sev_warn sev_confirm sev_block sev_none : Severity

unfoldable pub sev_rank : Severity → ℕ
sev_rank sev_warn = 1
sev_rank sev_confirm = 2
sev_rank sev_block = 3
sev_rank sev_none = 0

pub data Source : Type 0 where
  web api : Source

pub record Rule (Re : Type 0) : Type 0 where
  pub id : String
  pub re : Re
  pub severity : Severity
  pub message : String

-- The action is the severity's text, and "pass" where there is none.
pub record Decision : Type 0 where
  pub rule_id : String
  pub severity : Severity
  pub message : String

pub record Ruleset (Re : Type 0) : Type 0 where
  pub base : List (Rule Re)
  pub ai : List (Rule Re)

abbrev pub pass : Decision
pass = record { rule_id = ""; severity = sev_none; message = "" }

abbrev pub decision_of : {Re : Type 0} → Rule Re → Decision
decision_of r = record { rule_id = r.id; severity = r.severity; message = r.message }

module _ {Re : Type 0} (match_string : Re → List ℕ → Bool) where
  -- The loop over one list of rules, with the decision so far.
  unfoldable pub eval : List ℕ → Decision → List (Rule Re) → Decision
  eval line d [] = d
  eval line d (r ∷ rules) =
      eval line
        (if match_string r.re line && ltb (sev_rank d.severity) (sev_rank r.severity)
          then decision_of r
          else d)
        rules

  -- `Match`.
  unfoldable pub matched : Ruleset Re → List ℕ → Source → Decision
  unfolding eval
  matched rs line web = eval line pass rs.base
  matched rs line api = eval line (eval line pass rs.base) rs.ai

unfoldable pub rule_ids : {Re : Type 0} → Ruleset Re → List String
rule_ids rs = map (λ r. r.id) rs.base ++ map (λ r. concat "ai:" r.id) rs.ai

module _ {Re : Type 0} (compile : String → Re) where
  abbrev pub must_rule : String → String → Severity → String → Rule Re
  must_rule id pat sev msg = record { id = id; re = compile pat; severity = sev; message = msg }

  unfoldable pub default_ruleset : Ruleset Re
  default_ruleset = record {
    base =
        must_rule "prevent-rm-rf-absolute"
          "(^|[;&|]\\s*)\\s*(sudo\\s+)?rm\\s+(-[a-zA-Z]*[rR][a-zA-Z]*\\s+)*-[a-zA-Z]*[rR][a-zA-Z]*\\s+(/(\\s|$)|/(etc|var|usr|home|root|opt|bin|lib|boot)(/|\\s|$))"
          sev_block "禁止 rm -rf 系统关键路径"
        ∷ must_rule "prevent-rm-rf-tilde-home"
            "\\brm\\s+(-[a-zA-Z]*[rR][a-zA-Z]*\\s+).*(~|\\$HOME)(/|\\s|$)" sev_confirm "删除家目录需确认"
        ∷ must_rule "confirm-dd-of-dev" "\\bdd\\b[^|]*\\bof=/dev/" sev_confirm "dd 写入块设备会破坏数据，确认继续？"
        ∷ must_rule "block-mkfs" "\\bmkfs(\\.[a-z0-9]+)?\\b" sev_block "格式化文件系统已阻止"
        ∷ must_rule "block-forkbomb" ":\\s*\\(\\s*\\)\\s*\\{[^}]*:\\s*\\|\\s*:[^}]*\\}\\s*;\\s*:"
            sev_block "Fork bomb 模式"
        ∷ must_rule "confirm-shutdown" "\\b(shutdown|reboot|poweroff|halt|init\\s+0|init\\s+6)\\b"
            sev_confirm "停机命令需确认"
        ∷ must_rule "confirm-iptables-flush" "\\b(iptables\\s+-F|nft\\s+flush)\\b" sev_confirm
            "清空防火墙规则需确认"
        ∷ must_rule "warn-curl-pipe-bash" "\\bcurl\\b[^|]*\\|\\s*(sudo\\s+)?(bash|sh|zsh)\\b"
            sev_warn "下载即执行存在风险，已记录"
        ∷ must_rule "warn-chmod-777" "\\bchmod\\s+(-R\\s+)?0?777\\b" sev_warn "chmod 777 已记录"
        ∷ [];
    ai =
        must_rule "ai-confirm-any-rm" "\\brm\\b" sev_confirm "AI 执行 rm 需人工确认"
        ∷ must_rule "ai-confirm-any-sudo" "\\bsudo\\b" sev_confirm "AI 执行 sudo 需人工确认"
        ∷ must_rule "ai-block-pkg-mgr" "\\b(apt|apt-get|yum|dnf|pip|pip3|npm)\\s+(install|add)\\b"
            sev_block "AI 安装软件包已阻止"
        ∷ [];
  }
