-- ===== src/Credentials.antt =====
-- ai/credentialstore.go: the credential store in memory, with any number of goroutines (`pid`) that
-- call it. Each section under `s.mu` is one step, and the lock of a provider is held from step to step.
-- `C` is the type of credentials.
pub mod Atomic
use kern_proxy.Base.{
  ℕ, ◌≡◌, Bool, true, false, Option, none, some, List, [], ◌∷◌, String, ◌=ₛ◌, ◌==◌, if◌then◌else◌,
}

-- Where a call of `Modify` or `Delete` stands: with the lock of a provider, with the credential that
-- it has read (and `fn` running on it), or with its work done and the lock to give back.
pub data Stage (C : Type 0) : Type 0 where
  idle : Stage C
  locked : String → Stage C
  has_read : String → Option C → Stage C
  done : String → Stage C

-- A lock is its holder; `providerLock` makes one that is free where there is none.
pub record Store (C : Type 0) : Type 0 where
  pub credentials : String → Option C
  pub lock : String → Option ℕ
  pub stage : ℕ → Stage C

-- `NewInMemoryCredentialStore`
abbrev pub new_store : {C : Type 0} → Store C
new_store = record { credentials = λ id. none; lock = λ id. none; stage = λ pid. Stage.idle }

-- What `fn` returns: an error, nil, or a credential.
pub data Change (C : Type 0) : Type 0 where
  refuse : Change C
  keep : Change C
  write : C → Change C

pub data Action (C : Type 0) : Type 0 where
  acquire : ℕ → String → Action C
  read : ℕ → Action C
  change : ℕ → Change C → Action C
  delete : ℕ → Action C
  release : ℕ → Action C

abbrev pub put : {A : Type 0} → String → A → (String → A) → String → A
put k v m id = if k =ₛ id then v else m id

abbrev pub put_stage : {C : Type 0} → ℕ → Stage C → (ℕ → Stage C) → ℕ → Stage C
put_stage pid v m p = if pid == p then v else m p

abbrev pub try_lock : {C : Type 0} → ℕ → String → Option ℕ → Stage C → Store C → Option (Store C)
try_lock pid id none Stage.idle s =
    some (record s {
      lock = put id (some pid) s.lock;
      stage = put_stage pid (Stage.locked id) s.stage;
    })
try_lock pid id _ _ s = none

abbrev pub read_at : {C : Type 0} → ℕ → Stage C → Store C → Option (Store C)
read_at pid (Stage.locked id) s =
    some (record s { stage = put_stage pid (Stage.has_read id (s.credentials id)) s.stage })
read_at pid _ s = none

-- The end of `Modify`, from where `fn` has returned.
abbrev pub change_at : {C : Type 0} → ℕ → Change C → Stage C → Store C → Option (Store C)
change_at pid (Change.write c) (Stage.has_read id v) s = some (record s {
  credentials = put id (some c) s.credentials;
  stage = put_stage pid (Stage.done id) s.stage;
})
change_at pid Change.keep (Stage.has_read id v) s =
    some (record s { stage = put_stage pid (Stage.done id) s.stage })
change_at pid Change.refuse (Stage.has_read id v) s =
    some (record s { stage = put_stage pid (Stage.done id) s.stage })
change_at pid _ _ s = none

abbrev pub delete_at : {C : Type 0} → ℕ → Stage C → Store C → Option (Store C)
delete_at pid (Stage.locked id) s = some (record s {
  credentials = put id none s.credentials;
  stage = put_stage pid (Stage.done id) s.stage;
})
delete_at pid _ s = none

abbrev pub release_at : {C : Type 0} → ℕ → Stage C → Store C → Option (Store C)
release_at pid (Stage.done id) s =
    some (record s { lock = put id none s.lock; stage = put_stage pid Stage.idle s.stage })
release_at pid _ s = none

-- `none`: the action is not enabled. `Read` is a look at `credentials`.
unfoldable pub step : {C : Type 0} → Store C → Action C → Option (Store C)
step s (Action.acquire pid id) = try_lock pid id (s.lock id) (s.stage pid) s
step s (Action.read pid) = read_at pid (s.stage pid) s
step s (Action.change pid c) = change_at pid c (s.stage pid) s
step s (Action.delete pid) = delete_at pid (s.stage pid) s
step s (Action.release pid) = release_at pid (s.stage pid) s

unfoldable pub run : {C : Type 0} → Store C → List (Action C) → Option (Store C)
run s [] = some s
run s (a ∷ actions) = elim (step s a) [ none ↦ none | some s' ↦ run s' actions ]
