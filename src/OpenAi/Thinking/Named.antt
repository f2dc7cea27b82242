-- ===== src/OpenAi/Thinking/Named.antt =====
-- The effort that a request names.
use kern_proxy.Base.{
  ◌≡◌, ◌⊎◌, refl, Bool, true, false, not, ◌&&◌, Option, none, some, [], ◌++◌, String, ◌=ₛ◌, All,
  arith, Bool-cases, Option-cases, inl, inr, All-append, if◌then◌else◌,
}
use kern_proxy.Thinking.{
  Level, LevelMap, eq_level, contains, supported_levels, clamp_thinking_level,
}
use kern_proxy.Thinking.Nearest.{IsOnLadder, IsNearest, clamp-IsNearest}
use kern_proxy.OpenAi.Thinking.Names.{
  named_in_thinking, named_in_reasoning, unless_empty, names, IsName, AreNamed, template-AreNamed,
  raw-IsName, absent-IsName, mapped_level-IsName,
}
use kern_proxy.OpenAi.Levels.{
  mapped_thinking_level, mapped_thinking_or_raw, thinking_level_explicitly_null, or_else,
}
use kern_proxy.OpenAi.Thinking.{
  Thinking, Reasoning, Fields, Format, no_fields, fields_at, fields_off, fields_of,
  apply_thinking_format, asked_level, simple_effort, off_text, map_text, effort_if,
}

if-AreNamed :
    (f : Format) (l : Level) (t : Bool) (x y : Fields)
    → AreNamed f l x
    → AreNamed f l y
    → AreNamed f l (if t then x else y)
if-AreNamed f l true x y h k = h
if-AreNamed f l false x y h k = k

unless_empty-IsName :
    (m : LevelMap) (l : Level) (n : String)
    → (n ≡ "") ⊎ IsName m l n
    → All (IsName m l) (unless_empty n)
unless_empty-IsName m l n (inl e) = rw e tt
unless_empty-IsName m l n (inr h) = elim (Bool-cases (n =ₛ "")) [
  | inl e ↦ rw e tt
  | inr e ↦ rw e (h, tt)
]

effort-IsName :
    (f : Format) (l : Level) (takes : Bool) (r : Option Reasoning)
    → All (IsName f.levels l) (named_in_reasoning r)
    → All (IsName f.levels l) (unless_empty (effort_if takes f.levels l) ++ named_in_reasoning r)
effort-IsName f l true r h =
    All-append (IsName f.levels l) (unless_empty (mapped_thinking_or_raw f.levels l))
      (named_in_reasoning r)
      (unless_empty-IsName f.levels l (mapped_thinking_or_raw f.levels l)
        (inr (raw-IsName f.levels l)))
      h
effort-IsName f l false r h = h

mapped-IsName :
    (f : Format) (l : Level)
    → All
        (IsName f.levels l)
        (named_in_reasoning (map_text Reasoning.effort (mapped_thinking_level f.levels l)))
mapped-IsName f l = elim (Option-cases (mapped_thinking_level f.levels l)) [
  | inl e ↦ rw e tt
  | inr (v, e) ↦ rw e (mapped_level-IsName f.levels l v e, tt)
]

reasoning_field-AreNamed :
    (f : Format) (l : Level)
    → AreNamed f l (record no_fields {
      reasoning = some (Reasoning.effort (mapped_thinking_or_raw f.levels l));
    })
reasoning_field-AreNamed f l = (raw-IsName f.levels l, tt)

thinking_field-AreNamed :
    (f : Format) (l : Level)
    → AreNamed f l
        (record no_fields { thinking = some (Thinking.text (mapped_thinking_or_raw f.levels l)) })
thinking_field-AreNamed f l = (raw-IsName f.levels l, tt)

at-IsName : (f : Format) (l : Level) (format : String) → AreNamed f l (fields_at f l format)
unfolding fields_at
at-IsName f l format =
    let takes = f.supports_reasoning_effort in
    let known = not (thinking_level_explicitly_null f.levels l) in
    if-AreNamed f l (format =ₛ "zai") _ _ (effort-IsName f l (takes && known) none tt) (
      if-AreNamed f l (format =ₛ "qwen") _ _ tt (
        if-AreNamed f l (format =ₛ "qwen-chat-template") _ _ tt (
          if-AreNamed f l (format =ₛ "chat-template") _ _ (template-AreNamed f (some l)) (
            if-AreNamed f l (format =ₛ "deepseek") _ _ (effort-IsName f l takes none tt) (
              if-AreNamed f l (format =ₛ "openrouter") _ _ (reasoning_field-AreNamed f l) (
                if-AreNamed f l (format =ₛ "ant-ling") _ _ (mapped-IsName f l) (
                  if-AreNamed f l (format =ₛ "together") _ _
                    (effort-IsName f l takes (some (Reasoning.enabled true)) tt)
                    (if-AreNamed f l (format =ₛ "string-thinking") _ _ (thinking_field-AreNamed f l)
                      (effort-IsName f l takes none tt)))))))))

off_reasoning-IsName :
    (f : Format)
    → All (IsName f.levels Level.off) (named_in_reasoning (map_text Reasoning.effort (off_text f)))
off_reasoning-IsName f = elim (Bool-cases (thinking_level_explicitly_null f.levels Level.off)) [
  | inl e ↦ rw e tt
  | inr e ↦ rw e (absent-IsName f.levels, tt)
]

off_thinking-IsName :
    (f : Format)
    → All
        (IsName f.levels Level.off)
        (named_in_thinking (map_text Thinking.text (off_text f)) ++ [])
off_thinking-IsName f = elim (Bool-cases (thinking_level_explicitly_null f.levels Level.off)) [
  | inl e ↦ rw e tt
  | inr e ↦ rw e (absent-IsName f.levels, tt)
]

deepseek_off :
    (f : Format) (t : Bool)
    → AreNamed f Level.off
        (record no_fields { thinking = if t then none else some (Thinking.object "disabled" none) })
deepseek_off f true = tt
deepseek_off f false = tt

openai_off :
    (f : Format) (takes : Bool)
    → AreNamed f Level.off (record no_fields {
      reasoning_effort =
          if takes then or_else (mapped_thinking_level f.levels Level.off) "" else "";
    })
openai_off f false = tt
openai_off f true =
    All-append (IsName f.levels Level.off)
      (unless_empty (or_else (mapped_thinking_level f.levels Level.off) "")) []
      (unless_empty-IsName f.levels Level.off
        (or_else (mapped_thinking_level f.levels Level.off) "")
        (elim (Option-cases (mapped_thinking_level f.levels Level.off)) [
          | inl e ↦ rw e (inl refl)
          | inr (v, e) ↦ rw e (inr (mapped_level-IsName f.levels Level.off v e))
        ]))
      tt

off-IsName : (f : Format) (format : String) → AreNamed f Level.off (fields_off f format)
unfolding fields_off
off-IsName f format =
    let o = Level.off in
    if-AreNamed f o (format =ₛ "zai") _ _ tt (
      if-AreNamed f o (format =ₛ "qwen") _ _ tt (
        if-AreNamed f o (format =ₛ "qwen-chat-template") _ _ tt (
          if-AreNamed f o (format =ₛ "chat-template") _ _ (template-AreNamed f none) (
            if-AreNamed f o (format =ₛ "deepseek") _ _ (deepseek_off f _) (
              if-AreNamed f o (format =ₛ "openrouter") _ _ (off_reasoning-IsName f) (
                if-AreNamed f o (format =ₛ "ant-ling") _ _ tt (
                  if-AreNamed f o (format =ₛ "together") _ _ tt (
                    if-AreNamed f o (format =ₛ "string-thinking") _ _ (off_thinking-IsName f)
                      (openai_off f f.supports_reasoning_effort)))))))))

off_of_eq : (l : Level) → eq_level l Level.off ≡ true → l ≡ Level.off
unfolding eq_level
off_of_eq l h = ground arith

asked-AreNamed : (f : Format) (c : Level) → AreNamed f c (fields_of f (asked_level none c))
asked-AreNamed f c = elim (Bool-cases (eq_level c Level.off)) [
  | inl e ↦ rw e (rw (off_of_eq c e) (off-IsName f f.thinking_format))
  | inr e ↦ rw e (at-IsName f c f.thinking_format)
]

where_reasoning-AreNamed :
    (f : Format) (r : Bool) (c : Level)
    → AreNamed f c (if r then fields_of f (asked_level none c) else no_fields)
where_reasoning-AreNamed f true c = asked-AreNamed f c
where_reasoning-AreNamed f false c = tt

-- Whatever the thinking format of the provider: where a model supports some level of the ladder and the
-- options bring no effort of their own, each effort that the request of `StreamSimple` at a level of the
-- ladder names, by itself, in an object or as an argument of the chat template, is the name of the level
-- that the asked one is clamped to, which is supported and the nearest: the text that the map of the
-- model has for it, and only where it has none the own name of the level, or `none` for `off`.
pub simple_effort-IsName :
    (f : Format) (l s : Level)
    → IsOnLadder l
    → IsOnLadder s
    → contains (supported_levels f.model_reasoning f.levels) s ≡ true
    → let c = clamp_thinking_level f.model_reasoning f.levels l in
      (contains (supported_levels f.model_reasoning f.levels) c ≡ true)
      × IsNearest l c s
      × All (IsName f.levels c) (names (apply_thinking_format f (simple_effort f none (some l))))
unfolding apply_thinking_format simple_effort
simple_effort-IsName f l s hl hs h =
    let c = clamp_thinking_level f.model_reasoning f.levels l in
    let (known, near) = clamp-IsNearest f.model_reasoning f.levels l s hl hs h in
    (known, near, where_reasoning-AreNamed f f.model_reasoning c)
