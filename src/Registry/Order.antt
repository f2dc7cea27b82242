-- ===== src/Registry/Order.antt =====
-- The collection as a list of providers in the order of their first registration.
use kern_proxy.Base.{
  ◌≡◌, refl, sym, ◌∙◌, true, false, Option, none, some, List, [], ◌∷◌, ◌++◌, String, ◌=ₛ◌, eq_iff,
  eq_refl, arith, if◌then◌else◌, Bool-cases, inl, inr,
}
use kern_proxy.Registry.{
  Provider, Registry, create_models, exists, set_provider, cut_out, delete_provider, at_keys,
  get_providers, get_provider, Call, call, calls,
}

abbrev pub find : String → List Provider → Option Provider
find id [] = none
find id (p ∷ ps) = if p.id =ₛ id then some p else find id ps

abbrev pub ids : List Provider → List String
ids [] = []
ids (p ∷ ps) = p.id ∷ ids ps

-- A provider takes the place of the one with its id, or the last place.
abbrev pub put : Provider → List Provider → List Provider
put p [] = p ∷ []
put p (q ∷ qs) = if q.id =ₛ p.id then p ∷ qs else q ∷ put p qs

abbrev pub remove : String → List Provider → List Provider
remove id [] = []
remove id (q ∷ qs) = if q.id =ₛ id then qs else q ∷ remove id qs

abbrev pub spec_call : List Provider → Call → List Provider
spec_call ps (Call.set p) = put p ps
spec_call ps (Call.delete id) = remove id ps
spec_call ps Call.clear = []

abbrev pub spec_calls : List Provider → List Call → List Provider
spec_calls ps [] = ps
spec_calls ps (c ∷ cs) = spec_calls (spec_call ps c) cs

abbrev pub all_some : List Provider → List (Option Provider)
all_some [] = []
all_some (p ∷ ps) = some p ∷ all_some ps

abbrev IsDistinct : List Provider → Type 0
IsDistinct [] = Unit
IsDistinct (p ∷ ps) = (find p.id ps ≡ none) × IsDistinct ps

-- The fields hold this list.
record Holds (m : Registry) (ps : List Provider) : Type 0 where
  order_is : m.order ≡ ids ps
  lookup : (id : String) → m.providers id ≡ find id ps
  distinct : IsDistinct ps

find-put :
    (p : Provider) (ps : List Provider) (id : String)
    → find id (put p ps) ≡ (if p.id =ₛ id then some p else find id ps)
find-put p [] id = refl
find-put p (q ∷ qs) id =
    ground (arith, eq_iff q.id p.id, eq_iff q.id id, eq_iff p.id id, find-put p qs id)

ids-put :
    (p : Provider) (ps : List Provider)
    → ids (put p ps) ≡ (if exists (find p.id ps) then ids ps else ids ps ++ p.id ∷ [])
ids-put p [] = refl
ids-put p (q ∷ qs) = ground (arith, eq_iff q.id p.id, ids-put p qs)

put-IsDistinct : (p : Provider) (ps : List Provider) → IsDistinct ps → IsDistinct (put p ps)
put-IsDistinct p [] h = (refl, tt)
put-IsDistinct p (q ∷ qs) h =
    ground (arith, eq_iff q.id p.id, find-put p qs q.id, put-IsDistinct p qs h.1, eq_iff p.id q.id)

ids-remove : (id : String) (ps : List Provider) → ids (remove id ps) ≡ cut_out id (ids ps)
unfolding cut_out
ids-remove id [] = refl
ids-remove id (q ∷ qs) = ground (arith, ids-remove id qs)

find-remove :
    (id : String) (ps : List Provider) (k : String)
    → IsDistinct ps
    → find k (remove id ps) ≡ (if id =ₛ k then none else find k ps)
find-remove id [] k h = ground arith
find-remove id (q ∷ qs) k h =
    ground (arith, eq_iff q.id id, eq_iff q.id k, eq_iff id k, find-remove id qs k h.1)

remove-IsDistinct : (id : String) (ps : List Provider) → IsDistinct ps → IsDistinct (remove id ps)
remove-IsDistinct id [] h = tt
remove-IsDistinct id (q ∷ qs) h =
    ground (arith, find-remove id qs q.id h.1, remove-IsDistinct id qs h.1)

remove-absent : (id : String) (ps : List Provider) → exists (find id ps) ≡ false → remove id ps ≡ ps
remove-absent id [] h = refl
remove-absent id (q ∷ qs) h = ground (arith, remove-absent id qs)

call-Holds :
    (m : Registry) (ps : List Provider) (c : Call) → Holds m ps → Holds (call m c) (spec_call ps c)
unfolding call set_provider delete_provider
call-Holds m ps (Call.set p) h = record {
  order_is = rw (h.lookup p.id, h.order_is) (sym (ids-put p ps));
  lookup = λ id. rw (find-put p ps id, h.lookup id) refl;
  distinct = put-IsDistinct p ps h.distinct;
}
call-Holds m ps (Call.delete id) h = elim (Bool-cases (exists (find id ps))) [
  | inl present ↦
      let found : exists (m.providers id) ≡ true = rw (h.lookup id) present in
      simp found (record {
        order_is = rw h.order_is (sym (ids-remove id ps));
        lookup = λ k. rw (find-remove id ps k h.distinct, h.lookup k) refl;
        distinct = remove-IsDistinct id ps h.distinct;
      })
  | inr absent ↦
      let missing : exists (m.providers id) ≡ false = rw (h.lookup id) absent in
      simp (missing, remove-absent id ps absent) h
]
call-Holds m ps Call.clear h = record { order_is = refl; lookup = λ id. refl; distinct = tt }

calls-Holds :
    (cs : List Call) (m : Registry) (ps : List Provider)
    → Holds m ps
    → Holds (calls m cs) (spec_calls ps cs)
unfolding calls
calls-Holds [] m ps h = h
calls-Holds (c ∷ cs) m ps h = calls-Holds cs (call m c) (spec_call ps c) (call-Holds m ps c h)

-- Keys of further providers do not reach into the ones before.
at_keys-cons :
    (p : Provider) (ps qs : List Provider)
    → find p.id qs ≡ none
    → at_keys (λ id. find id (p ∷ ps)) (ids qs) ≡ at_keys (λ id. find id ps) (ids qs)
unfolding at_keys
at_keys-cons p ps [] h = refl
at_keys-cons p ps (q ∷ qs) h =
    ground (arith, eq_iff p.id q.id, eq_iff q.id p.id, at_keys-cons p ps qs)

at_keys-find :
    (ps : List Provider) → IsDistinct ps → at_keys (λ id. find id ps) (ids ps) ≡ all_some ps
unfolding at_keys
at_keys-find [] h = refl
at_keys-find (p ∷ ps) h = rw (eq_refl p.id, at_keys-cons p ps ps h.0, at_keys-find ps h.1) refl

at_keys-cong :
    (f g : String → Option Provider) (ks : List String)
    → ((id : String) → f id ≡ g id)
    → at_keys f ks ≡ at_keys g ks
unfolding at_keys
at_keys-cong f g [] h = refl
at_keys-cong f g (k ∷ ks) h = rw (h k, at_keys-cong f g ks h) refl

-- After any calls `GetProviders` lists what the same calls make of a plain list, to which `SetProvider`
-- appends a provider or puts it in the place of the one with its id, from which `DeleteProvider` takes the
-- one with the id, and which `ClearProviders` empties; none of the providers listed is nil. And
-- `GetProvider` finds the provider of this list that has the id.
pub calls-refine :
    (cs : List Call) (id : String)
    → (get_providers (calls create_models cs) ≡ all_some (spec_calls [] cs))
      × (get_provider (calls create_models cs) id ≡ find id (spec_calls [] cs))
unfolding get_providers
calls-refine cs id =
    let h =
      calls-Holds cs create_models []
        (record { order_is = refl; lookup = λ k. refl; distinct = tt }) in
    (simp (h.order_is) (at_keys-cong _ _ _ h.lookup ∙ at_keys-find _ h.distinct), h.lookup id)
