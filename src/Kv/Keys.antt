-- ===== src/Kv/Keys.antt =====
-- The keys of internal/kv are apart, and what commands make of them.
use Prim.Native.String.{◌++◌}
use text.Mathlib.TextLemmas.{append_cancel_left, append_cancel_right, cons-append}
use loomcli.Common.{
  ℕ, ◌≤◌, ◌≡◌, refl, ap, sym, ◌∙◌, false, Option, none, some, List, [], ◌∷◌, String, str_eq, eq_iff,
  eq_refl, str_ne, insert, remove, strip, strip-append, arith, Bool-cases, inl, inr,
}
use loomcli.Kv.{
  Redis, Value, plain, hash, fields_of, put_field, drop_field, hash_of, task_owner_key,
  worker_state_key, hset_all, hdel_all,
}
use loomcli.Kv.Leases.{insert_all}

same_eq : (a b c d : String) → (c ≡ d → a ≡ b) → (a ≡ b → c ≡ d) → str_eq c d ≡ str_eq a b
same_eq a b c d f g = elim (Bool-cases (str_eq a b)) [
  | inl e ↦ (eq_iff c d).1 (g ((eq_iff a b).0 e)) ∙ sym e
  | inr e ↦ elim (Bool-cases (str_eq c d)) [
    | inl x ↦ absurd (cc (e, (eq_iff a b).1 (f ((eq_iff c d).0 x))))
    | inr x ↦ x ∙ sym e
  ]
]

pub owner_key_eq : (a b : String) → str_eq (task_owner_key a) (task_owner_key b) ≡ str_eq a b
owner_key_eq a b =
    same_eq a b (task_owner_key a) (task_owner_key b)
      (λ e.
        append_cancel_right a b ":owner"
          (append_cancel_left "loom:task:" (a ++ ":owner") (b ++ ":owner") e))
      (λ e. ap task_owner_key e)

pub state_key_eq : (a b : String) → str_eq (worker_state_key a) (worker_state_key b) ≡ str_eq a b
state_key_eq a b =
    same_eq a b (worker_state_key a) (worker_state_key b)
      (λ e.
        append_cancel_right a b ":state"
          (append_cancel_left "loom:worker:" (a ++ ":state") (b ++ ":state") e))
      (λ e. ap worker_state_key e)

state_no_owner : (w : String) → strip "loom:task:" (worker_state_key w) ≡ none
unfolding strip
state_no_owner w =
    let z : String = w ++ ":state" in
    rw
      (
        cons-append "l" "oom:worker:" z,
        cons-append "o" "om:worker:" z,
        cons-append "o" "m:worker:" z,
        cons-append "m" ":worker:" z,
        cons-append ":" "worker:" z,
        cons-append "w" "orker:" z,
      )
      refl

pub owner_state_apart : (t w : String) → str_eq (task_owner_key t) (worker_state_key w) ≡ false
owner_state_apart t w =
    str_ne (task_owner_key t) (worker_state_key w)
      (λ e. cc (strip-append "loom:task:" (t ++ ":owner"), state_no_owner w, e))

pub state_owner_apart : (w t : String) → str_eq (worker_state_key w) (task_owner_key t) ≡ false
state_owner_apart w t =
    str_ne (worker_state_key w) (task_owner_key t)
      (λ e. cc (strip-append "loom:task:" (t ++ ":owner"), state_no_owner w, e))

-- Every command on a key leaves the others alone.
module _ (r : Redis) (now t : ℕ) (k j : String) (le : now ≤ t) (n : str_eq k j ≡ false) where
  open r use {Server, view, view-hset, view-hdel}

  pub hset_all_other :
      (s : Server) (fs : List (String × String)) → view (hset_all r s now k fs) t j ≡ view s t j
  hset_all_other s [] = refl
  hset_all_other s ((f, v) ∷ fs) =
      hset_all_other (r.hset s now k f v) fs ∙ (view-hset s now k f v t j le ∙ rw n refl)

  pub hdel_all_other :
      (s : Server) (fs : List String) → view (hdel_all r s now k fs) t j ≡ view s t j
  hdel_all_other s [] = refl
  hdel_all_other s (f ∷ fs) =
      hdel_all_other (r.hdel s now k f) fs ∙ (view-hdel s now k f t j le ∙ rw n refl)

abbrev pub IsHash : Option Value → Type 0
IsHash none = Unit {0}
IsHash (some (plain v)) = ⊥
IsHash (some (hash fs)) = Unit {0}

abbrev pub remove_all : List String → List (String × String) → List (String × String)
remove_all [] gs = gs
remove_all (f ∷ fs) gs = remove_all fs (remove f gs)

put_field_now :
    (f v : String) (o : Option Value)
    → IsHash o
    → put_field f v o o ≡ some (hash (insert f v (fields_of o)))
put_field_now f v none h = refl
put_field_now f v (some (plain x)) h = absurd h
put_field_now f v (some (hash fs)) h = refl

hash_of-fields : (gs : List (String × String)) → IsHash (hash_of gs) × (fields_of (hash_of gs) ≡ gs)
hash_of-fields [] = (tt, refl)
hash_of-fields (g ∷ gs) = (tt, refl)

drop_field_now :
    (f : String) (o : Option Value)
    → IsHash o
    → IsHash (drop_field f o o) × (fields_of (drop_field f o o) ≡ remove f (fields_of o))
drop_field_now f none h = (tt, refl)
drop_field_now f (some (plain x)) h = absurd h
drop_field_now f (some (hash fs)) h = hash_of-fields (remove f fs)

-- The fields of a key right after the commands.
module _ (r : Redis) (now : ℕ) (k : String) where
  open r use {Server, view, view-hset, view-hdel}

  pub hset_now :
      (s : Server) (f v : String)
      → IsHash (view s now k)
      → view (r.hset s now k f v) now k ≡ some (hash (insert f v (fields_of (view s now k))))
  hset_now s f v h =
      view-hset s now k f v now k (omega arith)
      ∙ (rw (eq_refl k) (put_field_now f v (view s now k) h))

  pub hset_all_now :
      (s : Server) (fs gs : List (String × String))
      → view s now k ≡ some (hash gs)
      → view (hset_all r s now k fs) now k ≡ some (hash (insert_all fs gs))
  hset_all_now s [] gs e = e
  hset_all_now s ((f, v) ∷ fs) gs e =
      hset_all_now (r.hset s now k f v) fs (insert f v gs) (hset_now s f v (rw e tt) ∙ rw e refl)

  pub hset_some_now :
      (s : Server) (f v : String) (fs : List (String × String))
      → IsHash (view s now k)
      → view (hset_all r s now k ((f, v) ∷ fs)) now k
        ≡ some (hash (insert_all ((f, v) ∷ fs) (fields_of (view s now k))))
  hset_some_now s f v fs h =
      hset_all_now (r.hset s now k f v) fs (insert f v (fields_of (view s now k)))
        (hset_now s f v h)

  pub hdel_all_now :
      (s : Server) (fs : List String)
      → IsHash (view s now k)
      → IsHash (view (hdel_all r s now k fs) now k)
        × (fields_of (view (hdel_all r s now k fs) now k)
            ≡ remove_all fs (fields_of (view s now k)))
  hdel_all_now s [] h = (h, refl)
  hdel_all_now s (f ∷ fs) h =
      let d = drop_field_now f (view s now k) h in
      let e : view (r.hdel s now k f) now k ≡ drop_field f (view s now k) (view s now k) =
        view-hdel s now k f now k (omega arith) ∙ rw (eq_refl k) refl in
      let rest = hdel_all_now (r.hdel s now k f) fs (rw e d.0) in
      (rest.0, rest.1 ∙ ap (remove_all fs) (ap fields_of e ∙ d.1))
