-- ===== src/Tests/Store.antt =====
-- Two goroutines at the credential store.
use kern_proxy.Base.{◌≡◌, refl, none, some, List, [], ◌∷◌, String}
use kern_proxy.Credentials.{Stage, Store, new_store, Change, Action, put, put_stage, step, run}
use kern_proxy.Credentials.Atomic.{IsSerial, run-IsSerial}

-- The second goroutine works on another provider, while the first is between its read and its write.
abbrev actions : List (Action String)
actions =
    Action.acquire 1 "openai"
    ∷ Action.read 1
    ∷ Action.acquire 2 "groq"
    ∷ Action.read 2
    ∷ Action.change 1 (Change.write "token")
    ∷ Action.release 1
    ∷ []

abbrev reached : Store String
reached = record {
  credentials = put "openai" (some "token") (λ id. none);
  lock = put "openai" none (put "groq" (some 2) (put "openai" (some 1) (λ id. none)));
  stage = put_stage 1 Stage.idle (
      put_stage 1 (Stage.done "openai") (
        put_stage 2 (Stage.has_read "groq" none) (
          put_stage 2 (Stage.locked "groq") (
            put_stage 1 (Stage.has_read "openai" none)
              (put_stage 1 (Stage.locked "openai") (λ pid. Stage.idle))))));
}

reaches : run new_store actions ≡ some reached
unfolding run step
reaches = refl

run-IsSerial_example : IsSerial reached
run-IsSerial_example = run-IsSerial actions reached reaches

-- A second `Modify` of the same provider has to wait.
waits :
    run {C = String} new_store (Action.acquire 1 "openai" ∷ Action.acquire 2 "openai" ∷ []) ≡ none
unfolding run step
waits = refl
