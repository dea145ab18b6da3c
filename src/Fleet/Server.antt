-- ===== src/Fleet/Server.antt =====
-- A Redis server as two lists: keys with their values and deadlines, and the sorted sets. It
-- meets the laws that internal/webui/fleet relies on.
use loomcli.Common.{
  ℕ, ◌+◌, ◌≤◌, ◌≡◌, refl, Option, none, some, List, [], ◌∷◌, false, String, arith, str_eq, eq_iff,
  ltb, leb, ◌&&◌, not, if◌then◌else◌, map, keep,
}
use loomcli.Fleet.{Redis, is_recorded}

pub record Entry : Type 0 where
  key : String
  value : String
  deadline : ℕ

pub record Member : Type 0 where
  pub set : String
  pub name : String
  pub score : ℕ

pub record Lists : Type 0 where
  entries : List Entry
  members : List Member

abbrev pub get_entry : List Entry → ℕ → String → Option String
get_entry [] t k = none
get_entry (e ∷ es) t k =
    let rest = get_entry es t k in
    if str_eq e.key k then (if ltb t e.deadline then some e.value else none) else rest

abbrev pub drop_key : String → List Entry → List Entry
drop_key k [] = []
drop_key k (e ∷ es) = let rest = drop_key k es in if str_eq e.key k then rest else e ∷ rest

pub get-drop_key :
    (k j : String) (t : ℕ) (es : List Entry)
    → get_entry (drop_key k es) t j ≡ (if str_eq k j then none else get_entry es t j)
get-drop_key k j t [] = ground arith
get-drop_key k j t (e ∷ es) =
    ground (arith, eq_iff e.key k, eq_iff e.key j, eq_iff k j, get-drop_key k j t es)

pub get-set_key :
    (now : ℕ) (k j v : String) (ttl t : ℕ) (es : List Entry)
    → get_entry (record { key = k; value = v; deadline = now + ttl } ∷ drop_key k es) t j
      ≡ (if str_eq k j then (if ltb t (now + ttl) then some v else none) else get_entry es t j)
get-set_key now k j v ttl t es = ground (arith, get-drop_key k j t es)

-- EXPIRE of a key that is there.
abbrev pub renew : ℕ → String → ℕ → List Entry → List Entry
renew now k ttl [] = []
renew now k ttl (e ∷ es) =
    let rest = renew now k ttl es in
    if str_eq e.key k
    then (if ltb now e.deadline then record e { deadline = now + ttl } else e) ∷ es
    else e ∷ rest

pub get-renew :
    (now : ℕ) (k j : String) (ttl t : ℕ) (es : List Entry)
    → now ≤ t
    → get_entry (renew now k ttl es) t j ≡ (
        if str_eq k j
        then (if ltb t (now + ttl) then get_entry es now j else none)
        else get_entry es t j)
get-renew now k j ttl t [] h = ground arith
get-renew now k j ttl t (e ∷ es) h =
    ground (arith, eq_iff e.key k, eq_iff e.key j, eq_iff k j, get-renew now k j ttl t es h)

-- ZRANGEBYSCORE, up to a score.
abbrev pub members_to : String → ℕ → List Member → List (String × ℕ)
members_to z max ms =
    map (λ x. (x.name, x.score)) (keep (λ x. str_eq x.set z && leb x.score max) ms)

abbrev pub drop_member : String → String → List Member → List Member
drop_member z m ms = keep (λ x. not (str_eq x.set z && str_eq x.name m)) ms

-- A member that is put in replaces one of its name.
pub is_recorded-members_to :
    (z m : String) (max : ℕ) (x : String) (ms : List Member)
    → is_recorded x (members_to z max (drop_member z m ms))
      ≡ (if str_eq m x then false else is_recorded x (members_to z max ms))
is_recorded-members_to z m max x [] = ground arith
is_recorded-members_to z m max x (a ∷ ms) =
    ground
      (arith, eq_iff m x, eq_iff a.name x, eq_iff a.name m, is_recorded-members_to z m max x ms)

pub is_recorded-put :
    (z m : String) (score max : ℕ) (x : String) (ms : List Member)
    → is_recorded x
        (members_to z max (record { set = z; name = m; score = score } ∷ drop_member z m ms))
      ≡ (if str_eq m x then leb score max else is_recorded x (members_to z max ms))
is_recorded-put z m score max x ms =
    ground (arith, eq_iff z z, eq_iff m x, is_recorded-members_to z m max x ms)

abbrev pub lists : Redis
lists = record {
  Server = Lists;
  get = λ s t k. get_entry s.entries t k;
  set_ex = λ s now k v ttl. record s {
    entries = record { key = k; value = v; deadline = now + ttl } ∷ drop_key k s.entries;
  };
  expire = λ s now k ttl. record s { entries = renew now k ttl s.entries };
  del = λ s k. record s { entries = drop_key k s.entries };
  zadd = λ s z score m. record s {
    members = record { set = z; name = m; score = score } ∷ drop_member z m s.members;
  };
  zrem = λ s z m. record s { members = drop_member z m s.members };
  zrange = λ s z max. members_to z max s.members;
  get-set_ex = λ s now k v ttl t j h. get-set_key now k j v ttl t s.entries;
  get-expire = λ s now k ttl t j h. get-renew now k j ttl t s.entries h;
  get-del = λ s k t j. get-drop_key k j t s.entries;
  get-zadd = λ s z score m t j. refl;
  get-zrem = λ s z m t j. refl;
  zrange-zadd = λ s z score m max x. is_recorded-put z m score max x s.members;
}

abbrev pub no_keys : Lists
no_keys = record { entries = []; members = [] }
