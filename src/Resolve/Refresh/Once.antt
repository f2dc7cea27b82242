-- ===== src/Resolve/Refresh/Once.antt =====
-- A token is refreshed once, and no request gets one that has expired.
use kern_proxy.Base.{
  ℕ, suc, ◌≡◌, ◌≤◌, ◌==◌, refl, ap, true, false, Option, none, some, List, [], ◌∷◌, String, ◌⊎◌,
  inl, inr, arith, Bool-cases, Option-cases, All,
}
use mathlib.Core.Path.{subst}
use kern_proxy.Base.Int.{ℤ, ltb_ℤ, ◌≤ℤ◌}
use kern_proxy.Resolve.Types.{OauthAuth, OauthCredential, Credential}
use kern_proxy.Resolve.{refresh_locked, refreshed, oauth_of}
use kern_proxy.Resolve.Refresh.{
  Stage, System, Action, put_stage, looked, begin_at, changed, modify_at, step, run, at_rest,
}

abbrev pub Within : ℤ → Action → Type 0
Within last (Action.begin pid now) = now ≤ℤ last
Within last (Action.modify pid now) = now ≤ℤ last
Within last Action.delete = Unit

-- Good beyond the last action, if it is stored.
abbrev pub Outlasts : ℤ → Option Credential → Type 0
Outlasts last (some (Credential.oauth c)) = ltb_ℤ last c.expires ≡ true
Outlasts last _ = Unit

abbrev pub IsFresh : Stage → Type 0
IsFresh (Stage.gave now c) = ltb_ℤ now c.expires ≡ true
IsFresh _ = Unit

abbrev pub Good : ℤ → System → Type 0
Good last s =
    ((s.refreshes ≡ 0) ⊎ (s.refreshes ≡ 1) × Outlasts last s.store)
    × ((pid : ℕ) → IsFresh (s.stage pid))

put-IsFresh :
    (pid : ℕ) (v : Stage) (m : ℕ → Stage)
    → IsFresh v
    → ((p : ℕ) → IsFresh (m p))
    → (p : ℕ) → IsFresh (put_stage pid v m p)
put-IsFresh pid v m h k p = elim (Bool-cases (pid == p)) [ inl e ↦ rw e h | inr e ↦ rw e (k p) ]

looked-IsFresh : (now : ℤ) (o : Option OauthCredential) → IsFresh (looked now o)
looked-IsFresh now none = tt
looked-IsFresh now (some c) = elim (Bool-cases (ltb_ℤ now c.expires)) [
  | inl e ↦ rw e e
  | inr e ↦ rw e tt
]

-- What holds behind an action that is enabled.
abbrev Then : (System → Type 0) → Option System → Type 0
Then P none = Unit
Then P (some t) = P t

begin_at-Good :
    (last : ℤ) (pid : ℕ) (now : ℤ) (st : Stage) (s : System)
    → Good last s
    → Then (Good last) (begin_at pid now st s)
begin_at-Good last pid now Stage.idle s g =
    (g.0, put-IsFresh pid _ s.stage (looked-IsFresh now (oauth_of s.store)) g.1)
begin_at-Good last pid now Stage.waiting s g = tt
begin_at-Good last pid now (Stage.gave _ _) s g = tt
begin_at-Good last pid now Stage.refused s g = tt
begin_at-Good last pid now Stage.logged_out s g = tt

-- Refreshed credentials are good until the last action at least.
abbrev pub Lasts : OauthAuth → ℤ → Type 0
Lasts h last = (c new : OauthCredential) → h.refresh c ≡ inr new → ltb_ℤ last new.expires ≡ true

-- The credential under the lock has expired, so no refresh came before.
write-Good :
    (h : OauthAuth) (last now : ℤ) (pid : ℕ) (c : OauthCredential) (s : System) (id : String)
    → Lasts h last
    → now ≤ℤ last
    → s.store ≡ some (Credential.oauth c)
    → ltb_ℤ now c.expires ≡ false
    → Good last s
    → (r : String ⊎ OauthCredential) → h.refresh c ≡ r
    → Good last (changed pid now (refreshed id r) s)
write-Good h last now pid c s id l n e x g (inl m) k = (g.0, put-IsFresh pid _ s.stage tt g.1)
write-Good h last now pid c s id l n e x g (inr new) k =
    let after : ltb_ℤ last new.expires ≡ true = l c new k in
    let fresh : ltb_ℤ now new.expires ≡ true = ground arith in
    (
      elim g.0 [
        | inl z ↦ inr (ap suc z, after)
        | inr (one, o) ↦
            let late : ltb_ℤ last c.expires ≡ true = subst (Outlasts last) e o in
            absurd (ground arith)
      ],
      put-IsFresh pid _ s.stage fresh g.1,
    )

locked-Good :
    (h : OauthAuth) (id : String) (last now : ℤ) (pid : ℕ) (s : System) (o : Option Credential)
    → Lasts h last
    → now ≤ℤ last
    → s.store ≡ o
    → Good last s
    → Good last (changed pid now (refresh_locked h id now o) s)
unfolding refresh_locked
locked-Good h id last now pid s none l n e g = (g.0, put-IsFresh pid _ s.stage (simp e tt) g.1)
locked-Good h id last now pid s (some (Credential.api_key k)) l n e g =
    (g.0, put-IsFresh pid _ s.stage (simp e tt) g.1)
locked-Good h id last now pid s (some (Credential.oauth c)) l n e g =
    elim (Bool-cases (ltb_ℤ now c.expires)) [
      | inl x ↦ rw x (g.0, put-IsFresh pid _ s.stage (simp e x) g.1)
      | inr x ↦ rw x (write-Good h last now pid c s id l n e x g (h.refresh c) refl)
    ]

modify_at-Good :
    (h : OauthAuth) (id : String) (last : ℤ) (pid : ℕ) (now : ℤ) (st : Stage) (s : System)
    → Lasts h last
    → now ≤ℤ last
    → Good last s
    → Then (Good last) (modify_at h id pid now st s)
modify_at-Good h id last pid now Stage.waiting s l n g =
    locked-Good h id last now pid s s.store l n refl g
modify_at-Good h id last pid now Stage.idle s l n g = tt
modify_at-Good h id last pid now (Stage.gave _ _) s l n g = tt
modify_at-Good h id last pid now Stage.refused s l n g = tt
modify_at-Good h id last pid now Stage.logged_out s l n g = tt

step-Good :
    (h : OauthAuth) (id : String) (last : ℤ) (s : System) (a : Action)
    → Lasts h last
    → Within last a
    → Good last s
    → Then (Good last) (step h id s a)
unfolding step
step-Good h id last s (Action.begin pid now) l n g = begin_at-Good last pid now (s.stage pid) s g
step-Good h id last s (Action.modify pid now) l n g =
    modify_at-Good h id last pid now (s.stage pid) s l n g
step-Good h id last s Action.delete l n g =
    (elim g.0 [ inl z ↦ inl z | inr (one, o) ↦ inr (one, tt) ], g.1)

run-Good :
    (h : OauthAuth) (id : String) (last : ℤ) (actions : List Action) (s t : System)
    → Lasts h last
    → All (Within last) actions
    → Good last s
    → run h id s actions ≡ some t
    → Good last t
unfolding run
run-Good h id last [] s t l n g e = subst (Then (Good last)) e g
run-Good h id last (a ∷ actions) s t l n g e = elim (Option-cases (step h id s a)) [
  | inl x ↦ absurd (ground arith)
  | inr (u, x) ↦
      run-Good h id last actions u t l n.1
        (subst (Then (Good last)) x (step-Good h id last s a l n.0 g)) (ground arith)
]

-- However the requests of one provider are interleaved, and whenever it is logged out: if a refresh gives credentials that are good
-- until the last action at least, the token is refreshed once at most, and every request that gets a
-- credential gets one that has not expired.
pub run-RefreshesOnce :
    (h : OauthAuth) (id : String) (last : ℤ) (actions : List Action) (stored : Option Credential)
    (t : System)
    → Lasts h last
    → All (Within last) actions
    → run h id (at_rest stored) actions ≡ some t
    → (t.refreshes ≤ 1) × ((pid : ℕ) → IsFresh (t.stage pid))
run-RefreshesOnce h id last actions stored t l n e =
    let g = run-Good h id last actions (at_rest stored) t l n (inl refl, λ pid. tt) e in
    (elim g.0 [ inl z ↦ omega (arith, z) | inr (one, o) ↦ omega (arith, one) ], g.1)
