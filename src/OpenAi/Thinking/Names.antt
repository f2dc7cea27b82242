-- ===== src/OpenAi/Thinking/Names.antt =====
-- The efforts that the fields of a request name, and those in the arguments of a chat template.
use kern_proxy.Base.{
  ◌≡◌, ◌⊎◌, refl, not, ◌&&◌, Option, none, some, List, [], ◌∷◌, ◌++◌, String, ◌=ₛ◌, All, Bool-cases,
  arith, inl, inr, All-append, if◌then◌else◌,
}
use kern_proxy.Thinking.{Level, LevelMap}
use kern_proxy.OpenAi.Levels.{
  Kwarg, KwargValue, keep_kwarg, resolve_kwarg, build_chat_template_kwargs, mapped_kwarg, or_off,
  is_some, mapped_thinking_level, mapped_thinking_or_raw, mapped_thinking_or_default, or_else,
  flattened, level_name,
}
use kern_proxy.OpenAi.Thinking.{Thinking, Reasoning, Fields, Format, no_fields}

abbrev pub named_in_thinking : Option Thinking → List String
named_in_thinking (some (Thinking.text t)) = t ∷ []
named_in_thinking _ = []

abbrev pub named_in_reasoning : Option Reasoning → List String
named_in_reasoning (some (Reasoning.effort t)) = t ∷ []
named_in_reasoning _ = []

abbrev pub unless_empty : String → List String
unless_empty t = if t =ₛ "" then [] else t ∷ []

abbrev pub named_in_kwarg : Kwarg → List String
named_in_kwarg (Kwarg.text t) = t ∷ []
named_in_kwarg _ = []

abbrev pub named_in_kwargs : List (String × Kwarg) → List String
named_in_kwargs [] = []
named_in_kwargs ((k, v) ∷ rest) = named_in_kwarg v ++ named_in_kwargs rest

-- The efforts that the fields name, by themselves, in an object or as an argument of the template.
abbrev pub names : Fields → List String
names r =
    unless_empty r.reasoning_effort
    ++ (named_in_kwargs r.chat_template_kwargs
        ++ (named_in_thinking r.thinking ++ named_in_reasoning r.reasoning))

-- The name of a level, by its entry in the model's map: the text there, and only where there is none the
-- level's own name, or `none` for `off`.
abbrev pub IsNameAt : Option (Option String) → Level → String → Type 0
IsNameAt (some (some v)) l n = n ≡ v
IsNameAt (some none) l n = (n ≡ level_name l) ⊎ ((l ≡ Level.off) × (n ≡ "none"))
IsNameAt none l n = (n ≡ level_name l) ⊎ ((l ≡ Level.off) × (n ≡ "none"))

abbrev pub IsName : LevelMap → Level → String → Type 0
IsName m l n = IsNameAt (m l) l n

or_else-IsNameAt :
    (e : Option (Option String)) (l : Level) → IsNameAt e l (or_else (flattened e) (level_name l))
or_else-IsNameAt none l = inl refl
or_else-IsNameAt (some none) l = inl refl
or_else-IsNameAt (some (some v)) l = refl

default-IsNameAt :
    (e : Option (Option String)) → IsNameAt e Level.off (or_else (flattened e) "none")
default-IsNameAt none = inr (refl, refl)
default-IsNameAt (some none) = inr (refl, refl)
default-IsNameAt (some (some v)) = refl

flattened-IsNameAt :
    (e : Option (Option String)) (l : Level) (v : String) → flattened e ≡ some v → IsNameAt e l v
flattened-IsNameAt none l v h = absurd (ground arith)
flattened-IsNameAt (some none) l v h = absurd (ground arith)
flattened-IsNameAt (some (some w)) l v h = ground arith

pub raw-IsName : (m : LevelMap) (l : Level) → IsName m l (mapped_thinking_or_raw m l)
unfolding mapped_thinking_or_raw mapped_thinking_level
raw-IsName m l = or_else-IsNameAt (m l) l

pub absent-IsName :
    (m : LevelMap) → IsName m Level.off (mapped_thinking_or_default m Level.off "none")
unfolding mapped_thinking_or_default mapped_thinking_level
absent-IsName m = default-IsNameAt (m Level.off)

pub mapped_level-IsName :
    (m : LevelMap) (l : Level) (v : String) → mapped_thinking_level m l ≡ some v → IsName m l v
unfolding mapped_thinking_level
mapped_level-IsName m l v h = flattened-IsNameAt (m l) l v h

-- Fields that name nothing but the level.
abbrev pub AreNamed : Format → Level → Fields → Type 0
AreNamed f l r = All (IsName f.levels l) (names r)

keep_kwarg-IsName :
    (f : Format) (l : Level) (k : String) (v : Option Kwarg) (rest : List (String × Kwarg))
    → All (IsName f.levels l) (named_in_kwargs (keep_kwarg k v []))
    → All (IsName f.levels l) (named_in_kwargs rest)
    → All (IsName f.levels l) (named_in_kwargs (keep_kwarg k v rest))
keep_kwarg-IsName f l k none rest h hs = hs
keep_kwarg-IsName f l k (some (Kwarg.text t)) rest h hs = (h.0, hs)
keep_kwarg-IsName f l k (some (Kwarg.json t)) rest h hs = hs
keep_kwarg-IsName f l k (some (Kwarg.flag b)) rest h hs = hs

kwarg-IsNameAt :
    (k : String) (level : Option Level) (e : Option (Option String))
    → All (IsNameAt e (or_off level)) (named_in_kwargs (keep_kwarg k (mapped_kwarg level e) []))
kwarg-IsNameAt k none none = tt
kwarg-IsNameAt k none (some none) = tt
kwarg-IsNameAt k none (some (some v)) = (refl, tt)
kwarg-IsNameAt k (some l) none = (inl refl, tt)
kwarg-IsNameAt k (some l) (some none) = tt
kwarg-IsNameAt k (some l) (some (some v)) = (refl, tt)

resolve_kwarg-IsName :
    (f : Format) (k : String) (level : Option Level) (v : KwargValue)
    → All
        (IsName f.levels (or_off level))
        (named_in_kwargs (keep_kwarg k (resolve_kwarg f.levels level v) []))
unfolding resolve_kwarg
resolve_kwarg-IsName f k level (KwargValue.scalar v) = tt
resolve_kwarg-IsName f k level (KwargValue.placeholder omit is_enabled) =
    elim (Bool-cases (not (is_some level) && omit)) [
      | inl e ↦ rw e tt
      | inr e ↦ rw e (elim (Bool-cases is_enabled) [
        | inl t ↦ rw t tt
        | inr t ↦ rw t (kwarg-IsNameAt k level (f.levels (or_off level)))
      ])
    ]

kwargs-IsName :
    (f : Format) (level : Option Level) (vs : List (String × KwargValue))
    → All
        (IsName f.levels (or_off level))
        (named_in_kwargs (build_chat_template_kwargs f.levels level vs))
unfolding build_chat_template_kwargs
kwargs-IsName f level [] = tt
kwargs-IsName f level ((k, v) ∷ rest) =
    keep_kwarg-IsName f (or_off level) k (resolve_kwarg f.levels level v) _
      (resolve_kwarg-IsName f k level v) (kwargs-IsName f level rest)

pub template-AreNamed :
    (f : Format) (level : Option Level)
    → AreNamed f (or_off level) (record no_fields {
      chat_template_kwargs = build_chat_template_kwargs f.levels level f.kwargs;
    })
template-AreNamed f level =
    All-append (IsName f.levels (or_off level))
      (named_in_kwargs (build_chat_template_kwargs f.levels level f.kwargs)) []
      (kwargs-IsName f level f.kwargs) tt
