-- ===== src/Resolve/Refresh.antt =====
-- Any number of requests that share a stored OAuth credential: each of them looks at it without a lock
-- (`begin`), and if it has expired goes on under the lock (`modify`), which is one step, as `Modify`
-- holds the lock of the provider while its function runs. A `gave` request has the credential that it
-- derives its headers from.
pub mod Once
use kern_proxy.Base.{
  ℕ, suc, ◌+◌, ◌≡◌, ◌≤◌, ◌==◌, refl, sym, ap, Bool, true, false, not, Option, none, some, List, [],
  ◌∷◌, String, ◌⊎◌, inl, inr, arith, Bool-cases, Option-cases, All, if◌then◌else◌,
}
use mathlib.Core.Path.{subst}
use kern_proxy.Base.Int.{ℤ, ltb_ℤ, ◌≤ℤ◌}
use kern_proxy.Resolve.Types.{OauthAuth, OauthCredential, Credential}
use kern_proxy.Resolve.{Change, has_expired, refresh_locked, refreshed, post, oauth_of}

pub data Stage : Type 0 where
  idle : Stage
  waiting : Stage
  gave : ℤ → OauthCredential → Stage  -- at a time
  refused : Stage
  logged_out : Stage

pub record System : Type 0 where
  pub store : Option Credential
  pub stage : ℕ → Stage
  pub refreshes : ℕ

pub data Action : Type 0 where
  begin : ℕ → ℤ → Action  -- a request, at a time
  modify : ℕ → ℤ → Action
  delete : Action  -- `Delete`

abbrev pub put_stage : ℕ → Stage → (ℕ → Stage) → ℕ → Stage
put_stage pid v m p = if pid == p then v else m p

abbrev pub looked : ℤ → Option OauthCredential → Stage
looked now none = Stage.logged_out
looked now (some c) = if has_expired now c then Stage.waiting else Stage.gave now c

abbrev pub begin_at : ℕ → ℤ → Stage → System → Option System
begin_at pid now Stage.idle s =
    some (record s { stage = put_stage pid (looked now (oauth_of s.store)) s.stage })
begin_at pid now _ s = none

abbrev pub given : ℤ → Option OauthCredential → Stage
given now none = Stage.logged_out
given now (some c) = Stage.gave now c

abbrev pub changed : ℕ → ℤ → Change → System → System
changed pid now (Change.refuse e) s = record s { stage = put_stage pid Stage.refused s.stage }
changed pid now Change.keep s = record s {
  stage = put_stage pid (given now (oauth_of s.store)) s.stage;
}
changed pid now (Change.write c) s = record {
  store = post s.store (Change.write c);
  stage = put_stage pid (Stage.gave now c) s.stage;
  refreshes = suc s.refreshes;
}

abbrev pub modify_at : OauthAuth → String → ℕ → ℤ → Stage → System → Option System
modify_at h id pid now Stage.waiting s = some (changed pid now (refresh_locked h id now s.store) s)
modify_at h id pid now _ s = none

-- `none`: the action is not enabled.
unfoldable pub step : OauthAuth → String → System → Action → Option System
step h id s (Action.begin pid now) = begin_at pid now (s.stage pid) s
step h id s (Action.modify pid now) = modify_at h id pid now (s.stage pid) s
step h id s Action.delete = some (record s { store = none })

unfoldable pub run : OauthAuth → String → System → List Action → Option System
run h id s [] = some s
run h id s (a ∷ actions) = elim (step h id s a) [ none ↦ none | some t ↦ run h id t actions ]

-- Before any request.
abbrev pub at_rest : Option Credential → System
at_rest stored = record { store = stored; stage = λ pid. Stage.idle; refreshes = 0 }
