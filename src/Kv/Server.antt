-- ===== src/Kv/Server.antt =====
-- A Redis server as a function from keys to what they hold until when, and a list for the sorted sets. It
-- meets the laws that internal/kv relies on.
use loomcli.Common.{
  ℕ, ◌+◌, ◌≤◌, ◌≡◌, ◌∙◌, refl, is_some, Bool, true, Option, none, some, List, [], ◌∷◌, String,
  arith, str_eq, eq_iff, ltb, not, if◌then◌else◌, remove, Bool-cases, inl, inr,
}
use loomcli.Kv.{Redis, Value, plain, hash, put_field, drop_field, hash_of}
use loomcli.Fleet.Server.{Member, members_to, drop_member, is_recorded-put, is_recorded-members_to}

-- A key without a deadline stays.
pub record Entry : Type 0 where
  pub value : Value
  pub deadline : Option ℕ

pub record Store : Type 0 where
  pub keys : String → Option Entry
  pub members : List Member

abbrev pub in_time : ℕ → Option ℕ → Bool
in_time t none = true
in_time t (some d) = ltb t d

abbrev pub seen : ℕ → Option Entry → Option Value
seen t none = none
seen t (some e) = if in_time t e.deadline then some e.value else none

abbrev pub renewed : ℕ → ℕ → Option Entry → Option Entry
renewed now ttl none = none
renewed now ttl (some e) =
    if in_time now e.deadline then some (record e { deadline = some (now + ttl) }) else some e

abbrev pub set_if_free : ℕ → ℕ → String → Option Entry → Option Entry
set_if_free now ttl v none = some (record { value = plain v; deadline = some (now + ttl) })
set_if_free now ttl v (some e) =
    if in_time now e.deadline
    then some e
    else some (record { value = plain v; deadline = some (now + ttl) })

abbrev pub with_value : Option ℕ → Option Value → Option Entry
with_value d none = none
with_value d (some v) = some (record { value = v; deadline = d })

abbrev pub deadline_of : ℕ → Option Entry → Option ℕ
deadline_of now none = none
deadline_of now (some e) = if in_time now e.deadline then e.deadline else none

abbrev pub field_put : ℕ → String → String → Option Entry → Option Entry
field_put now f v o = with_value (deadline_of now o) (put_field f v (seen now o) (seen now o))

abbrev pub field_dropped : ℕ → String → Option Entry → Option Entry
field_dropped now f o = with_value (deadline_of now o) (drop_field f (seen now o) (seen now o))

abbrev pub put_key : (String → Option Entry) → String → Option Entry → String → Option Entry
put_key m k e j = if str_eq k j then e else m j

pub seen-set :
    (m : String → Option Entry) (now ttl t : ℕ) (k j : String) (v : Value)
    → seen t (put_key m k (some (record { value = v; deadline = some (now + ttl) })) j)
      ≡ (if str_eq k j then (if ltb t (now + ttl) then some v else none) else seen t (m j))
seen-set m now ttl t k j v = ground arith

seen-renewed :
    (now ttl t : ℕ) (o : Option Entry)
    → now ≤ t
    → seen t (renewed now ttl o) ≡ (if ltb t (now + ttl) then seen now o else none)
seen-renewed now ttl t none h = ground arith
seen-renewed now ttl t (some e) h = go e.deadline
  where
    go :
        (d : Option ℕ)
        → seen t (renewed now ttl (some (record { value = e.value; deadline = d }))) ≡ (
            if ltb t (now + ttl)
            then seen now (some (record { value = e.value; deadline = d }))
            else none)
    go none = ground arith
    go (some u) = ground arith

seen-put :
    (now t : ℕ) (f v : String) (o : Option Entry)
    → now ≤ t
    → seen t (field_put now f v o) ≡ put_field f v (seen now o) (seen t o)
seen-put now t f v none h = refl
seen-put now t f v (some e) h = go e.value e.deadline
  where
    go :
        (x : Value) (d : Option ℕ)
        → seen t (field_put now f v (some (record { value = x; deadline = d })))
          ≡ put_field f v
              (seen now (some (record { value = x; deadline = d })))
              (seen t (some (record { value = x; deadline = d })))
    go (plain y) none = refl
    go (hash fs) none = refl
    go (plain y) (some u) = ground arith
    go (hash fs) (some u) = ground arith

with_hash :
    (t : ℕ) (d : Option ℕ) (fs : List (String × String))
    → seen t (with_value d (hash_of fs)) ≡ (if in_time t d then hash_of fs else none)
with_hash t d [] = ground arith
with_hash t d (f ∷ fs) = refl

seen-dropped :
    (now t : ℕ) (f : String) (o : Option Entry)
    → now ≤ t
    → seen t (field_dropped now f o) ≡ drop_field f (seen now o) (seen t o)
seen-dropped now t f none h = refl
seen-dropped now t f (some e) h = go e.value e.deadline
  where
    go :
        (x : Value) (d : Option ℕ)
        → seen t (field_dropped now f (some (record { value = x; deadline = d })))
          ≡ drop_field f
              (seen now (some (record { value = x; deadline = d })))
              (seen t (some (record { value = x; deadline = d })))
    go (plain y) none = refl
    go (hash fs) none = with_hash t none (remove f fs)
    go (plain y) (some u) = ground arith
    go (hash fs) (some u) = ground (arith, with_hash t (some u) (remove f fs))

at_key :
    (m : String → Option Entry) (t : ℕ) (k j : String) (g : Option Entry → Option Entry)
    → seen t (put_key m k (g (m k)) j) ≡ (if str_eq k j then seen t (g (m j)) else seen t (m j))
at_key m t k j g = elim (Bool-cases (str_eq k j)) [
  | inl e ↦ rw (e, (eq_iff k j).0 e) refl
  | inr e ↦ rw e refl
]

pub seen_expire :
    (m : String → Option Entry) (now ttl t : ℕ) (k j : String)
    → now ≤ t
    → seen t (put_key m k (renewed now ttl (m k)) j)
      ≡ (if str_eq k j then (if ltb t (now + ttl) then seen now (m j) else none) else seen t (m j))
seen_expire m now ttl t k j h =
    at_key m t k j (renewed now ttl) ∙ (rw (seen-renewed now ttl t (m j) h) refl)

seen-set_if_free :
    (now ttl t : ℕ) (v : String) (o : Option Entry)
    → now ≤ t
    → seen t (set_if_free now ttl v o) ≡ (
        if is_some (seen now o)
        then seen t o
        else if ltb t (now + ttl)
        then some (plain v)
        else none)
seen-set_if_free now ttl t v none h = refl
seen-set_if_free now ttl t v (some e) h = elim (Bool-cases (in_time now e.deadline)) [
  | inl x ↦ rw x refl
  | inr x ↦ rw x refl
]

pub seen_set_nx :
    (m : String → Option Entry) (now ttl t : ℕ) (k j v : String)
    → now ≤ t
    → seen t (put_key m k (set_if_free now ttl v (m k)) j) ≡ (
        if str_eq k j
        then (if is_some (seen now (m j))
            then seen t (m j)
            else if ltb t (now + ttl)
            then some (plain v)
            else none)
        else seen t (m j))
seen_set_nx m now ttl t k j v h =
    at_key m t k j (set_if_free now ttl v) ∙ (rw (seen-set_if_free now ttl t v (m j) h) refl)

pub seen_del :
    (m : String → Option Entry) (t : ℕ) (k j : String)
    → seen t (put_key m k none j) ≡ (if str_eq k j then none else seen t (m j))
seen_del m t k j = at_key m t k j (λ e. none)

pub seen_hset :
    (m : String → Option Entry) (now t : ℕ) (k j f v : String)
    → now ≤ t
    → seen t (put_key m k (field_put now f v (m k)) j)
      ≡ (if str_eq k j then put_field f v (seen now (m j)) (seen t (m j)) else seen t (m j))
seen_hset m now t k j f v h =
    at_key m t k j (field_put now f v) ∙ (rw (seen-put now t f v (m j) h) refl)

pub seen_hdel :
    (m : String → Option Entry) (now t : ℕ) (k j f : String)
    → now ≤ t
    → seen t (put_key m k (field_dropped now f (m k)) j)
      ≡ (if str_eq k j then drop_field f (seen now (m j)) (seen t (m j)) else seen t (m j))
seen_hdel m now t k j f h =
    at_key m t k j (field_dropped now f) ∙ (rw (seen-dropped now t f (m j) h) refl)

abbrev pub store : Redis
store = record {
  Server = Store;
  view = λ s t k. seen t (s.keys k);
  set_ex = λ s now k v ttl. record s {
    keys = put_key s.keys k (some (record { value = plain v; deadline = some (now + ttl) }));
  };
  set_nx = λ s now k v ttl. (
    record s { keys = put_key s.keys k (set_if_free now ttl v (s.keys k)) },
    not (is_some (seen now (s.keys k))),
  );
  expire = λ s now k ttl. record s { keys = put_key s.keys k (renewed now ttl (s.keys k)) };
  del = λ s k. record s { keys = put_key s.keys k none };
  hset = λ s now k f v. record s { keys = put_key s.keys k (field_put now f v (s.keys k)) };
  hdel = λ s now k f. record s { keys = put_key s.keys k (field_dropped now f (s.keys k)) };
  zadd = λ s z score m. record s {
    members = record { set = z; name = m; score = score } ∷ drop_member z m s.members;
  };
  zrem = λ s z m. record s { members = drop_member z m s.members };
  zrange = λ s z max. members_to z max s.members;
  view-set_ex = λ s now k v ttl t j h. seen-set s.keys now ttl t k j (plain v);
  set_nx-free = λ s now k v ttl. refl;
  view-set_nx = λ s now k v ttl t j h. seen_set_nx s.keys now ttl t k j v h;
  view-expire = λ s now k ttl t j h. seen_expire s.keys now ttl t k j h;
  view-del = λ s k t j. seen_del s.keys t k j;
  view-hset = λ s now k f v t j h. seen_hset s.keys now t k j f v h;
  view-hdel = λ s now k f t j h. seen_hdel s.keys now t k j f h;
  view-zadd = λ s z score m t j. refl;
  view-zrem = λ s z m t j. refl;
  zrange-zadd = λ s z score m max x. is_recorded-put z m score max x s.members;
  zrange-zrem = λ s z m max x. is_recorded-members_to z m max x s.members;
  zrange-set_ex = λ s now k v ttl z max h. refl;
  zrange-expire = λ s now k ttl z max h. refl;
  zrange-del = λ s k z max h. refl;
  zrange-hset = λ s now k f v z max h. refl;
  zrange-hdel = λ s now k f z max h. refl;
}

abbrev pub empty_store : Store
empty_store = record { keys = λ k. none; members = [] }
