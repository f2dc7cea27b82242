-- ===== src/Credentials/Atomic.antt =====
-- No update is lost.
use kern_proxy.Base.{
  ℕ, ◌≡◌, ◌≢◌, refl, sym, ap, ◌∙◌, Option, none, some, List, [], ◌∷◌, String, ◌==◌, eq_iff, eq_refl,
  arith, Bool-cases, inl, inr,
}
use mathlib.Core.Path.{subst}
use kern_proxy.Credentials.{
  Stage, Store, new_store, Change, Action, put, put_stage, try_lock, read_at, change_at, delete_at,
  release_at, step, run,
}

-- A goroutine holds the lock of the provider it works on, and what it has read is what the store has.
abbrev pub IsCurrent :
    {C : Type 0} → (String → Option C) → (String → Option ℕ) → ℕ → Stage C → Type 0
IsCurrent credentials lock pid Stage.idle = Unit
IsCurrent credentials lock pid (Stage.locked id) = lock id ≡ some pid
IsCurrent credentials lock pid (Stage.has_read id v) = (lock id ≡ some pid) × (credentials id ≡ v)
IsCurrent credentials lock pid (Stage.done id) = lock id ≡ some pid

abbrev pub IsSerial : {C : Type 0} → Store C → Type 0
IsSerial s = (pid : ℕ) → IsCurrent s.credentials s.lock pid (s.stage pid)

abbrev Good : {C : Type 0} → Option (Store C) → Type 0
Good none = Unit
Good (some s) = IsSerial s

-- The provider at `id` is the only one that differs.
abbrev Same : {C : Type 0} → Store C → String → (String → Option C) → (String → Option ℕ) → Type 0
Same s id credentials lock =
    (k : String) → id ≢ k → (lock k ≡ s.lock k) × (credentials k ≡ s.credentials k)

apart :
    {C : Type 0} (id k : String) (p : ℕ) (s : Store C)
    → s.lock id ≢ some p
    → s.lock k ≡ some p
    → id ≢ k
apart id k p s free h e = free (ap s.lock e ∙ h)

-- A goroutine with another lock does not see the change at `id`.
others :
    {C : Type 0} (s : Store C) (credentials : String → Option C) (lock : String → Option ℕ)
    (id : String) (p : ℕ) (st : Stage C)
    → Same s id credentials lock
    → s.lock id ≢ some p
    → IsCurrent s.credentials s.lock p st
    → IsCurrent credentials lock p st
others s c l id p Stage.idle same free h = tt
others s c l id p (Stage.locked k) same free h = (same k (apart id k p s free h)).0 ∙ h
others s c l id p (Stage.has_read k v) same free h =
    let other = apart id k p s free h.0 in ((same k other).0 ∙ h.0, (same k other).1 ∙ h.1)
others s c l id p (Stage.done k) same free h = (same k (apart id k p s free h)).0 ∙ h

-- One goroutine moves, and changes the provider at `id`, whose lock no other has.
moves :
    {C : Type 0} (s : Store C) (credentials : String → Option C) (lock : String → Option ℕ)
    (id : String) (pid : ℕ) (v : Stage C)
    → IsSerial s
    → Same s id credentials lock
    → ((p : ℕ) → pid ≢ p → s.lock id ≢ some p)
    → IsCurrent credentials lock pid v
    → (p : ℕ) → IsCurrent credentials lock p (put_stage pid v s.stage p)
moves s c l id pid v h same free mine p = elim (Bool-cases (pid == p)) [
  | inl here ↦ let one : pid ≡ p = ground arith in rw here (subst (λ x. IsCurrent c l x v) one mine)
  | inr there ↦
      let two : pid ≢ p = ground arith in
      rw there (others s c l id p (s.stage p) same (free p two) (h p))
]

put_other :
    {A : Type 0} (id : String) (v : A) (m : String → A) (k : String) → id ≢ k → put id v m k ≡ m k
put_other id v m k h = ground (arith, eq_iff id k)

put_same : {A : Type 0} (id : String) (v : A) (m : String → A) → put id v m id ≡ v
put_same id v m = rw (eq_refl id) refl

held_by_one :
    {C : Type 0} (s : Store C) (id : String) (pid : ℕ)
    → s.lock id ≡ some pid
    → (p : ℕ) → pid ≢ p
    → s.lock id ≢ some p
held_by_one s id pid h p other e = let same : some pid ≡ some p = sym h ∙ e in ground arith

try_lock-Good :
    {C : Type 0} (s : Store C) (pid : ℕ) (id : String) (l : Option ℕ) (st : Stage C)
    → s.lock id ≡ l
    → IsSerial s
    → Good (try_lock pid id l st s)
try_lock-Good s pid id none Stage.idle free h =
    moves s s.credentials (put id (some pid) s.lock) id pid (Stage.locked id) h
      (λ k e. (put_other id (some pid) s.lock k e, refl)) (λ p other e. cc)
      (put_same id (some pid) s.lock)
try_lock-Good s pid id none (Stage.locked k) free h = tt
try_lock-Good s pid id none (Stage.has_read k v) free h = tt
try_lock-Good s pid id none (Stage.done k) free h = tt
try_lock-Good s pid id (some q) st free h = tt

read_at-Good :
    {C : Type 0} (s : Store C) (pid : ℕ) (st : Stage C)
    → IsCurrent s.credentials s.lock pid st
    → IsSerial s
    → Good (read_at pid st s)
read_at-Good s pid (Stage.locked id) mine h =
    moves s s.credentials s.lock id pid (Stage.has_read id (s.credentials id)) h
      (λ k e. (refl, refl)) (held_by_one s id pid mine) (mine, refl)
read_at-Good s pid Stage.idle mine h = tt
read_at-Good s pid (Stage.has_read k v) mine h = tt
read_at-Good s pid (Stage.done k) mine h = tt

change_at-Good :
    {C : Type 0} (s : Store C) (pid : ℕ) (c : Change C) (st : Stage C)
    → IsCurrent s.credentials s.lock pid st
    → IsSerial s
    → Good (change_at pid c st s)
change_at-Good s pid (Change.write c) (Stage.has_read id v) mine h =
    moves s (put id (some c) s.credentials) s.lock id pid (Stage.done id) h
      (λ k e. (refl, put_other id (some c) s.credentials k e)) (held_by_one s id pid mine.0) mine.0
change_at-Good s pid Change.keep (Stage.has_read id v) mine h =
    moves s s.credentials s.lock id pid (Stage.done id) h (λ k e. (refl, refl))
      (held_by_one s id pid mine.0) mine.0
change_at-Good s pid Change.refuse (Stage.has_read id v) mine h =
    moves s s.credentials s.lock id pid (Stage.done id) h (λ k e. (refl, refl))
      (held_by_one s id pid mine.0) mine.0
change_at-Good s pid (Change.write c) _ mine h = tt
change_at-Good s pid Change.keep _ mine h = tt
change_at-Good s pid Change.refuse _ mine h = tt

delete_at-Good :
    {C : Type 0} (s : Store C) (pid : ℕ) (st : Stage C)
    → IsCurrent s.credentials s.lock pid st
    → IsSerial s
    → Good (delete_at pid st s)
delete_at-Good s pid (Stage.locked id) mine h =
    moves s (put id none s.credentials) s.lock id pid (Stage.done id) h
      (λ k e. (refl, put_other id none s.credentials k e)) (held_by_one s id pid mine) mine
delete_at-Good s pid Stage.idle mine h = tt
delete_at-Good s pid (Stage.has_read k v) mine h = tt
delete_at-Good s pid (Stage.done k) mine h = tt

release_at-Good :
    {C : Type 0} (s : Store C) (pid : ℕ) (st : Stage C)
    → IsCurrent s.credentials s.lock pid st
    → IsSerial s
    → Good (release_at pid st s)
release_at-Good s pid (Stage.done id) mine h =
    moves s s.credentials (put id none s.lock) id pid Stage.idle h
      (λ k e. (put_other id none s.lock k e, refl)) (held_by_one s id pid mine) tt
release_at-Good s pid Stage.idle mine h = tt
release_at-Good s pid (Stage.has_read k v) mine h = tt
release_at-Good s pid (Stage.locked k) mine h = tt

step-Good : {C : Type 0} (s : Store C) (a : Action C) → IsSerial s → Good (step s a)
unfolding step
step-Good s (Action.acquire pid id) h = try_lock-Good s pid id (s.lock id) (s.stage pid) refl h
step-Good s (Action.read pid) h = read_at-Good s pid (s.stage pid) (h pid) h
step-Good s (Action.change pid c) h = change_at-Good s pid c (s.stage pid) (h pid) h
step-Good s (Action.delete pid) h = delete_at-Good s pid (s.stage pid) (h pid) h
step-Good s (Action.release pid) h = release_at-Good s pid (s.stage pid) (h pid) h

then-Good :
    {C : Type 0} (actions : List (Action C)) (o : Option (Store C))
    → Good o
    → ((t : Store C) → IsSerial t → Good (run t actions))
    → Good (elim o [ none ↦ none | some t ↦ run t actions ])
then-Good actions none g later = tt
then-Good actions (some t) g later = later t g

run-Good :
    {C : Type 0} (actions : List (Action C)) (s : Store C) → IsSerial s → Good (run s actions)
unfolding run
run-Good [] s h = h
run-Good (a ∷ actions) s h =
    then-Good actions (step s a) (step-Good s a h) (λ t g. run-Good actions t g)

-- However the calls of `Modify` and `Delete` of all goroutines are interleaved: each of them that is
-- between taking the lock of a provider and giving it back is the one that holds it, and where `fn` runs on
-- a credential, the store has that credential until `fn` returns. So no update is lost.
pub run-IsSerial :
    {C : Type 0} (actions : List (Action C)) (s : Store C)
    → run new_store actions ≡ some s
    → IsSerial s
run-IsSerial actions s e = subst Good e (run-Good actions new_store (λ pid. tt))
