-- ===== src/Lldap/Memory.antt =====
-- A directory in memory that keeps the laws of Lldap/Directory, to run the client against.
use rust_invite_system.Common.{
  ℕ, ◌≡◌, refl, ap, Bool, true, false, ◌&&◌, ◌||◌, none, some, List, [], ◌∷◌, arith, Text, codes,
  text_eq, text_eq_iff, text_eq_refl, ok, any, if◌then◌else◌, ◌==◌, Bool-cases, All, subst, Result,
  err, inl, inr,
}
use rust_invite_system.Lldap.{read_reply, LldapError}
use rust_invite_system.Lldap.Service.{
  CreateUserResponse, GroupListResponse, SuccessValue, Service, GroupRecord, Reply, answered,
  parsed, unreadable,
}
use rust_invite_system.Lldap.Directory.{IsDirectory, RefusesTaken}
use rust_invite_system.Lldap.Available.{IsAvailable}

-- Accounts, memberships, and whether the LDAP port answers.
pub record Memory : Type 0 where
  pub users : List Text
  pub joined : List (Text × ℕ)
  pub ldap_up : Bool

unfoldable pub has : Memory → Text → Bool
unfolding text_eq
has d v = any (λ u. text_eq u v) d.users

unfoldable pub is_member : List (Text × ℕ) → Text → ℕ → Bool
unfolding text_eq
is_member [] v k = false
is_member ((u, g) ∷ l) v k = (text_eq u v && g == k) || is_member l v k

unfoldable pub without : Text → List Text → List Text
unfolding text_eq
without u [] = []
without u (v ∷ vs) = let rest = without u vs in if text_eq u v then rest else v ∷ rest

abbrev pub groups_listed : List GroupRecord
groups_listed = record { id = 4; display_name = codes "engineering" } ∷ []

abbrev pub fine : {T : Type 0} → T → Reply T
fine t = answered 200 (parsed (some t) none)

abbrev pub create_in : Text → Memory → Reply CreateUserResponse × Memory
create_in u d =
    if has d u
    then (answered 200 (parsed none (some (record { message = codes "taken" } ∷ []))), d)
    else (fine (record { create_user = record { id = u } }), record d { users = u ∷ d.users })

abbrev fulfilled : SuccessValue
fulfilled = record { ok = true }

abbrev pub memory : Service
memory = record {
  Directory = Memory;
  ca_file = λ path. unreadable;
  post_login = λ e u p d. (some (record { token = codes "token" }), d);
  post_create_user = λ e t u m n f l d. create_in u d;
  post_delete_user = λ e t u d.
      (fine (record { delete_user = fulfilled }), record d { users = without u d.users });
  post_list_groups = λ e t d. (fine (record { groups = groups_listed }), d);
  post_lookup_users =
      λ e t f x d. (fine (record { users = if has d x then record { id = x } ∷ [] else [] }), d);
  post_add_user_to_group = λ e t u g d.
      (fine (record { add_user_to_group = fulfilled }), record d { joined = (u, g) ∷ d.joined });
  ldap_connect = λ c url d. (d.ldap_up, d);
  ldap_bind = λ n p d. (true, d);
  ldap_password_modify = λ n p d. (true, d);
  ldap_unbind = λ d. (true, d);
}

pub without-same : (u : Text) (l : List Text) → any (λ x. text_eq x u) (without u l) ≡ false
unfolding without
without-same u [] = refl
without-same u (v ∷ vs) = ground (arith, without-same u vs, text_eq_iff u v, text_eq_iff v u)

pub without-other :
    (u v : Text) (l : List Text)
    → text_eq u v ≡ false
    → any (λ x. text_eq x v) (without u l) ≡ any (λ x. text_eq x v) l
unfolding without
without-other u v [] h = refl
without-other u v (x ∷ l) h =
    ground (arith, without-other u v l, text_eq_iff u x, text_eq_iff u v, text_eq_iff x v)

pub create-others :
    (u v : Text) (d : Memory) → text_eq u v ≡ false → has (create_in u d).1 v ≡ has d v
unfolding has
create-others u v d h = ground (arith, h)

pub create-adds :
    (u : Text) (d : Memory) (r : CreateUserResponse)
    → read_reply (create_in u d).0 ≡ ok r
    → has (create_in u d).1 u ≡ true
unfolding has
create-adds u d r h = ground (arith, text_eq_refl u)

pub member-new : (u : Text) (g : ℕ) (l : List (Text × ℕ)) → is_member ((u, g) ∷ l) u g ≡ true
unfolding is_member
member-new u g l = ground (arith, text_eq_refl u)

pub member-kept :
    (u v : Text) (g k : ℕ) (l : List (Text × ℕ))
    → is_member l v k ≡ true
    → is_member ((u, g) ∷ l) v k ≡ true
unfolding is_member
member-kept u v g k l h = ground arith

pub member-others :
    (u v : Text) (g k : ℕ) (l : List (Text × ℕ))
    → text_eq u v ≡ false
    → is_member ((u, g) ∷ l) v k ≡ is_member l v k
unfolding is_member
member-others u v g k l h = rw (h, is_member) refl

-- What is held for a name: whether there is an account, and which groups it is in.
abbrev pub held : Memory → Text → Bool × (ℕ → Bool)
held d v = (has d v, is_member d.joined v)

pub created-others :
    (u v : Text) (d : Memory) → text_eq u v ≡ false → held (create_in u d).1 v ≡ held d v
created-others u v d h = elim (Bool-cases (has d u)) [
  | inl taken ↦ rw taken refl
  | inr free ↦
      let kept : has (record d { users = u ∷ d.users }) v ≡ has d v =
        rw free at (create-others u v d h) in
      rw free (λ j. (kept j, is_member d.joined v))
]

-- A group of this number and this name is in the list.
unfoldable pub lists : List GroupRecord → ℕ → Text → Bool
unfolding text_eq
lists gs k n = any (λ g. g.id == k && text_eq g.display_name n) gs

groups_in : Result GroupListResponse LldapError → List GroupRecord
groups_in (ok r) = r.groups
groups_in (err e) = []

pub all_listed :
    (r : GroupListResponse)
    → ◌≡◌ {A = Result GroupListResponse LldapError} (ok (record { groups = groups_listed })) (ok r)
    → All (λ g. lists groups_listed g.id g.display_name ≡ true) r.groups
unfolding lists groups_in
all_listed r h =
    subst (All (λ g. lists groups_listed g.id g.display_name ≡ true)) (ap groups_in h) (refl, tt)

unfoldable pub memory-IsDirectory : IsDirectory memory
unfolding has
memory-IsDirectory = record {
  same = text_eq;
  same_itself = text_eq_refl;
  Account = Bool × (ℕ → Bool);
  account = held;
  has_user = has;
  has_account = λ d d' v h. ap (λ x. x.0) h;
  has_same = λ d u v h. ap (has d) ((text_eq_iff u v).0 h);
  member = λ d. is_member d.joined;
  named = λ d. lists groups_listed;
  login_keeps = λ e u p d v. refl;
  create_others = λ e t u m n f l d v h. created-others u v d h;
  create_adds = λ e t u m n f l d r h. create-adds u d r h;
  delete_others = λ e t u d v h j. (without-other u v d.users h j, is_member d.joined v);
  delete_removes = λ e t u d b h done. without-same u d.users;
  list_keeps = λ e t d v. refl;
  list_names = λ e t d r h. all_listed r h;
  lookup_keeps = λ e t f x d v. refl;
  add_others = λ e t u g d v h j. (has d v, λ k. member-others u v g k d.joined h j);
  add_keeps = λ e t u g d v. refl;
  add_joins = λ e t u g d b h done. member-new u g d.joined;
  add_members = λ e t u g d v k h. member-kept u v g k d.joined h;
  add_names = λ e t u g d k n h. h;
  connect_keeps = λ c url d v. refl;
  bind_keeps = λ n p d v. refl;
  modify_keeps = λ n p d v. refl;
  modify_others = λ base u p d v valid h. refl;
  unbind_keeps = λ d v. refl;
}

-- The server lists the one group, and answers while the LDAP port does.
unfoldable pub memory-IsAvailable : IsAvailable memory
unfolding has
memory-IsAvailable = record {
  Up = λ gs d. (gs ≡ groups_listed) × (d.ldap_up ≡ true);
  Free = λ f x d. has d x ≡ false;
  login_answers = λ e u p gs d up. (record { token = codes "token" }, (refl, up));
  login_frees = λ e u p f x d free. free;
  lookup_answers = λ e t f x gs d up free. (rw free refl, up);
  lookup_frees = λ e t f x f' x' d free. free;
  create_answers = λ e t u m n f l gs d up free _.
      (record { create_user = record { id = u } }, (rw free refl, rw free up));
  list_answers = λ e t gs d up. (rw up.0 refl, up);
  add_answers = λ e t u g gs d up. (record { add_user_to_group = fulfilled }, (refl, up));
  connect_answers = λ c url gs d up. (up.1, up);
  bind_answers = λ n p gs d up. (refl, up);
  modify_answers = λ n p gs d up. (refl, up);
  unbind_answers = λ gs d up. (refl, up);
}

pub memory-RefusesTaken : RefusesTaken memory memory-IsDirectory
unfolding memory-IsDirectory
memory-RefusesTaken = record {
  refused = λ e t u m n f l d r taken created. let bad = rw taken at created in cc;
  kept = λ e t u m n f l d taken. rw taken taken;
}
