-- ===== src/Anthropic/Names.antt =====
-- The names of tools and the ids of calls, of ai/apis/anthropic/anthropic.go. With an OAuth token a tool
-- goes by the name that Claude Code has for it. `to_lower` is `strings.ToLower`.
use Prim.Native.Char.{Char, code}
use kern_proxy.Base.{
  ℕ, zero, suc, ◌≡◌, refl, sym, ap, ◌∙◌, Bool, true, false, ◌&&◌, ◌||◌, Option, none, some, List,
  [], ◌∷◌, String, ◌=ₛ◌, ◌==◌, if◌then◌else◌, arith, eq_iff, Option-cases, Bool-cases, inl, inr,
  eq_refl,
}
use kern_proxy.Base.Bytes.{Bytes, codes, between}

-- `claudeCodeTools`
abbrev pub claude_code_tools : List String
claude_code_tools =
    "Read" ∷ "Write" ∷ "Edit" ∷ "Bash" ∷ "Grep" ∷ "Glob" ∷ "AskUserQuestion" ∷ "EnterPlanMode"
    ∷ "ExitPlanMode" ∷ "KillShell" ∷ "NotebookEdit" ∷ "Skill" ∷ "Task" ∷ "TaskOutput" ∷ "TodoWrite"
    ∷ "WebFetch" ∷ "WebSearch" ∷ []

abbrev later_or : Option String → Option String → Option String
later_or none first = first
later_or (some found) first = some found

-- A look-up in the map that `buildCCToolLookup` makes of the names: a later entry replaces an earlier one.
unfoldable pub cc_tool_lookup : (String → String) → List String → String → Option String
cc_tool_lookup to_lower [] key = none
cc_tool_lookup to_lower (name ∷ names) key =
    later_or (cc_tool_lookup to_lower names key) (if to_lower name =ₛ key then some name else none)

abbrev or_same : String → Option String → String
or_same name none = name
or_same name (some found) = found

-- `toClaudeCodeName`
unfoldable pub to_claude_code_name : (String → String) → String → String
to_claude_code_name to_lower name =
    or_same name (cc_tool_lookup to_lower claude_code_tools (to_lower name))

unfoldable pub from_tools : (String → String) → String → List String → Option String
from_tools to_lower lower [] = none
from_tools to_lower lower (t ∷ tools) =
    let rest = from_tools to_lower lower tools in if to_lower t =ₛ lower then some t else rest

-- `fromClaudeCodeName`, on the names of the tools.
unfoldable pub from_claude_code_name : (String → String) → String → List String → String
from_claude_code_name to_lower name tools = or_same name (from_tools to_lower (to_lower name) tools)

unfoldable pub has_prefix : Bytes → Bytes → Bool
has_prefix [] s = true
has_prefix (x ∷ p) [] = false
has_prefix (x ∷ p) (y ∷ s) = x == y && has_prefix p s

-- `strings.Contains`
unfoldable pub contains_text : Bytes → Bytes → Bool
contains_text p [] = has_prefix p []
contains_text p (c ∷ s) = has_prefix p (c ∷ s) || contains_text p s

-- `isOAuthToken`
unfoldable pub is_oauth_token : String → Bool
is_oauth_token key = contains_text (codes "sk-ant-oat") (codes key)

abbrev underscore : Char
underscore = "_"

-- A byte that an id may hold.
abbrev pub is_id_char : ℕ → Bool
is_id_char c =
    between b'a' b'z' c || between b'A' b'Z' c || between b'0' b'9' c || c == b'_' || c == b'-'

-- The first `n` bytes of a text whose characters are single bytes.
unfoldable pub cut_at : ℕ → String → String
cut_at zero s = String.[]
cut_at (suc n) String.[] = String.[]
cut_at (suc n) (String.◌∷◌ c s) = String.◌∷◌ c (cut_at n s)

unfoldable pub replace_chars : String → String
replace_chars String.[] = String.[]
replace_chars (String.◌∷◌ c s) =
    String.◌∷◌ (if is_id_char (code c) then c else underscore) (replace_chars s)

-- `normalizeToolCallID`: `replace_chars` leaves single bytes, so `out[:64]` counts characters.
unfoldable pub normalize_tool_call_id : String → String
normalize_tool_call_id id = cut_at 64 (replace_chars id)

-- What Anthropic requires of an id.
abbrev pub AllIdChars : String → Type 0
AllIdChars String.[] = Unit
AllIdChars (String.◌∷◌ c s) = (is_id_char (code c) ≡ true) × AllIdChars s

abbrev pub characters : String → ℕ
characters String.[] = 0
characters (String.◌∷◌ c s) = suc (characters s)

lookup-lower :
    (to_lower : String → String) (names : List String) (key found : String)
    → cc_tool_lookup to_lower names key ≡ some found
    → to_lower found ≡ key
unfolding cc_tool_lookup
lookup-lower to_lower [] key found h = ground arith
lookup-lower to_lower (n ∷ names) key found h =
    elim (Option-cases (cc_tool_lookup to_lower names key)) [
      | inl e ↦ elim (Bool-cases (to_lower n =ₛ key)) [
        | inl f ↦
            let same : n ≡ found = ground arith in
            ap to_lower (sym same) ∙ (eq_iff (to_lower n) key).0 f
        | inr f ↦ ground arith
      ]
      | inr (c, e) ↦ lookup-lower to_lower names key found (ground arith)
    ]

to_claude-lower :
    (to_lower : String → String) (name : String)
    → to_lower (to_claude_code_name to_lower name) ≡ to_lower name
unfolding to_claude_code_name
to_claude-lower to_lower name =
    elim (Option-cases (cc_tool_lookup to_lower claude_code_tools (to_lower name))) [
      | inl e ↦ rw e refl
      | inr (found, e) ↦ rw e (lookup-lower to_lower claude_code_tools (to_lower name) found e)
    ]

-- No two tools have names that differ in letter case alone.
abbrev pub Distinct : (String → String) → List String → Type 0
Distinct to_lower [] = Unit
Distinct to_lower (t ∷ tools) =
    (from_tools to_lower (to_lower t) tools ≡ none) × Distinct to_lower tools

abbrev pub has_name : String → List String → Bool
has_name n [] = false
has_name n (t ∷ tools) = t =ₛ n || has_name n tools

from_tools-name :
    (to_lower : String → String) (tools : List String) (name : String)
    → Distinct to_lower tools
    → has_name name tools ≡ true
    → from_tools to_lower (to_lower name) tools ≡ some name
unfolding from_tools
from_tools-name to_lower [] name h k = ground arith
from_tools-name to_lower (t ∷ tools) name h k = elim (Bool-cases (t =ₛ name)) [
  | inl e ↦ rw ((eq_iff t name).0 e, eq_refl (to_lower name)) refl
  | inr e ↦
      let r = from_tools-name to_lower tools name h.1 (ground arith) in
      ground (arith, eq_iff (to_lower t) (to_lower name))
]

-- A tool that goes out by the name of Claude Code comes back by its own, if no two of the caller's tools
-- have names that differ in letter case alone.
pub from-to_claude_code_name :
    (to_lower : String → String) (tools : List String) (name : String)
    → Distinct to_lower tools
    → has_name name tools ≡ true
    → from_claude_code_name to_lower (to_claude_code_name to_lower name) tools ≡ name
unfolding from_claude_code_name
from-to_claude_code_name to_lower tools name h k =
    ap (or_same (to_claude_code_name to_lower name)) (
      ap (λ key. from_tools to_lower key tools) (to_claude-lower to_lower name)
      ∙ from_tools-name to_lower tools name h k)
