-- ===== src/Tests/Auth.antt =====
-- Requests that share a token which expires.
use kern_proxy.Base.{ℕ, ◌≡◌, ◌≤◌, refl, none, some, List, [], ◌∷◌, inr, arith, All}
use kern_proxy.Base.Int.{ℤ, pos}
use kern_proxy.Resolve.Types.{OauthAuth, OauthCredential, Credential, World}
use kern_proxy.Resolve.{refresh_locked, resolve_stored_oauth, resolve_provider_auth}
use kern_proxy.Resolve.Fresh.{Uses, resolve_provider_auth-Uses}
use kern_proxy.Resolve.Refresh.{System, Stage, Action, at_rest, put_stage, step, run}
use kern_proxy.Resolve.Refresh.Once.{IsFresh, Lasts, Within, run-RefreshesOnce}

abbrev token : ℤ → OauthCredential
token expires = record { refresh = "r"; access = "a"; expires = expires }

abbrev flow : OauthAuth
flow = record {
  refresh = λ c. inr (token (pos 900));
  to_auth = λ c. inr (record { api_key = c.access; headers = none; base_url = "" });
}

-- Both requests find the token expired; the first to get the lock refreshes it.
abbrev requests : List Action
requests =
    Action.begin 1 (pos 20)
    ∷ Action.begin 2 (pos 21)
    ∷ Action.modify 2 (pos 22)
    ∷ Action.modify 1 (pos 23)
    ∷ []

abbrev reached : System
reached = record {
  store = some (Credential.oauth (token (pos 900)));
  stage = put_stage 1 (Stage.gave (pos 23) (token (pos 900))) (
      put_stage 2 (Stage.gave (pos 22) (token (pos 900)))
        (put_stage 2 Stage.waiting (put_stage 1 Stage.waiting (λ pid. Stage.idle))));
  refreshes = 1;
}

reaches :
    run flow "anthropic" (at_rest (some (Credential.oauth (token (pos 10))))) requests
    ≡ some reached
unfolding run step refresh_locked
reaches = refl

lasting : Lasts flow (pos 30)
lasting c new e = ground arith

in_time : All (Within (pos 30)) requests
in_time = (omega arith, (omega arith, (omega arith, (omega arith, tt))))

run-RefreshesOnce_example : (reached.refreshes ≤ 1) × ((pid : ℕ) → IsFresh (reached.stage pid))
run-RefreshesOnce_example =
    run-RefreshesOnce flow "anthropic" (pos 30) requests (some (Credential.oauth (token (pos 10))))
      reached lasting in_time reaches

abbrev world : World
world = record {
  read = inr (some (Credential.oauth (token (pos 10))));
  now = pos 20;
  modify_error = none;
  current = some (Credential.oauth (token (pos 10)));
  now_locked = pos 21;
}

resolve_provider_auth-Uses_example :
    (resolve_provider_auth "anthropic" none (some flow) none world (λ name. "key") none
      ≡ resolve_stored_oauth flow "anthropic" world (token (pos 10)))
    × Uses flow world
        (token (pos 10))
        (resolve_provider_auth "anthropic" none (some flow) none world (λ name. "key") none)
resolve_provider_auth-Uses_example =
    resolve_provider_auth-Uses "anthropic" none flow none world (λ name. "key") none
      (token (pos 10)) refl refl
