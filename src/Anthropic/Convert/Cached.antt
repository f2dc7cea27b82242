-- ===== src/Anthropic/Convert/Cached.antt =====
-- The cache control changes no call and no answer, so the whole request is answered.
use kern_proxy.Base.{
  ℕ, ◌≡◌, refl, sym, ap, ◌∙◌, ◌||◌, Option, none, some, List, [], ◌∷◌, String, Bool-cases, inl, inr,
}
use kern_proxy.Base.Int.{ℤ}
use kern_proxy.Messages.{Message, Model}
use kern_proxy.Transform.Orphans.Settled.{insert-IsSettled}
use kern_proxy.Transform.Pipeline.{transform_messages}
use kern_proxy.Anthropic.Convert.Answers.{
  use_id, result_id, calls, has_result, content_calls, content_has_result, answers, AllAnswered,
  convert_all-AllAnswered,
}
use kern_proxy.Anthropic.Convert.{
  CacheControl, takes_cache, cache_content, WireBlock, Content, Role, WireMessage, Options,
  cache_last_block, cache_message, apply_cache_control, convert_messages,
}

cache-calls :
    (id : String) (c : CacheControl) (bs : List WireBlock)
    → calls id (cache_last_block c bs) ≡ calls id bs
unfolding cache_last_block
cache-calls id c [] = refl
cache-calls id c (b ∷ []) = elim (Bool-cases (takes_cache b.block)) [
  | inl e ↦ simp e refl
  | inr e ↦ simp e refl
]
cache-calls id c (b ∷ d ∷ bs) = ap (λ r. use_id id b.block || r) (cache-calls id c (d ∷ bs))

cache-has_result :
    (id : String) (c : CacheControl) (bs : List WireBlock)
    → has_result id (cache_last_block c bs) ≡ has_result id bs
unfolding cache_last_block
cache-has_result id c [] = refl
cache-has_result id c (b ∷ []) = elim (Bool-cases (takes_cache b.block)) [
  | inl e ↦ simp e refl
  | inr e ↦ simp e refl
]
cache-has_result id c (b ∷ d ∷ bs) =
    ap (λ r. result_id id b.block || r) (cache-has_result id c (d ∷ bs))

content-calls :
    (id : String) (c : CacheControl) (w : Content)
    → content_calls id (cache_content c w) ≡ content_calls id w
content-calls id c (Content.plain t) = refl
content-calls id c (Content.blocks bs) = cache-calls id c bs

content-has_result :
    (id : String) (c : CacheControl) (w : Content)
    → content_has_result id (cache_content c w) ≡ content_has_result id w
content-has_result id c (Content.plain t) = refl
content-has_result id c (Content.blocks bs) = cache-has_result id c bs

-- The last message keeps its calls, and what it answers.
message-same :
    (id : String) (c : CacheControl) (role : Role) (w : WireMessage)
    → w.role ≡ role
    → (content_calls id (cache_message c role w).content ≡ content_calls id w.content)
      × (answers id (cache_message c role w ∷ []) ≡ answers id (w ∷ []))
message-same id c Role.user w e =
    (content-calls id c w.content, simp e (content-has_result id c w.content))
message-same id c Role.assistant w e = (refl, refl)

answers-cache :
    (id : String) (c : Option CacheControl) (ws : List WireMessage)
    → answers id (apply_cache_control c ws) ≡ answers id ws
unfolding apply_cache_control
answers-cache id none ws = refl
answers-cache id (some c) [] = refl
answers-cache id (some c) (w ∷ []) = (message-same id c w.role w refl).1
answers-cache id (some c) (w ∷ v ∷ ws) = refl

cache-AllAnswered :
    (c : Option CacheControl) (ws : List WireMessage)
    → AllAnswered ws
    → AllAnswered (apply_cache_control c ws)
unfolding apply_cache_control
cache-AllAnswered none ws h = h
cache-AllAnswered (some c) [] h = h
cache-AllAnswered (some c) (w ∷ []) h =
    (λ id k. h.0 id (sym (message-same id c w.role w refl).0 ∙ k), tt)
cache-AllAnswered (some c) (w ∷ v ∷ ws) h =
    (λ id k. answers-cache id (some c) (v ∷ ws) ∙ h.0 id k, cache-AllAnswered (some c) (v ∷ ws) h.1)

-- For every conversation, whatever the model, the options, the cache control and the clock: in the
-- messages of the request each tool call is answered by a tool result with its id in the message right
-- behind it, which is one of the user.
pub convert_messages-AllAnswered :
    (now : ℕ → ℤ) (o : Options) (ms : List Message) (model : Model) (cache : Option CacheControl)
    → AllAnswered (convert_messages now o ms model cache)
unfolding convert_messages transform_messages
convert_messages-AllAnswered now o ms model cache =
    cache-AllAnswered cache _ (convert_all-AllAnswered o _ (insert-IsSettled now _))
