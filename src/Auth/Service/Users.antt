-- ===== src/Auth/Service/Users.antt =====
-- The users of a service are those of its settings.
use on_call_agent.Base.{
  Option-cases, trim_left, ℕ, ◌≡◌, refl, sym, ◌∙◌, Bool, true, false, not, List, [], ◌∷◌, Option,
  none, some, arith, if◌then◌else◌, ◌=?◌, Text, is_empty, trim_space, ok, Result-cases, nat_eq,
  list_eq, list_beq_iff, inl, inr,
}
use on_call_agent.Base.Map.{get, put, get-put}
use on_call_agent.Auth.Service.{
  LocalUser, AuthConfig, Bcrypt, Service, add_user, add_users, new_service, is_incomplete, Jwt,
  Principal, principal_of, login, matches,
}

-- The first user of that name.
unfoldable pub find_user : Text → List LocalUser → Option LocalUser
find_user name [] = none
find_user name (user ∷ rest) = if user.login_name =? name then some user else find_user name rest

abbrev or_else : Option LocalUser → Option LocalUser → Option LocalUser
or_else (some u) other = some u
or_else none other = other

-- Whether a user has the three identifiers of a principal.
unfoldable pub is_complete : LocalUser → Bool
is_complete user = not (is_incomplete user.local_user_id user.local_tenant_id user.login_name)

add_user_lem :
    (b : Bcrypt) (users users' : List (Text × LocalUser)) (user : LocalUser)
    → add_user b users user ≡ ok users'
    → (get user.login_name users ≡ none) × (users' ≡ put user.login_name user users)
unfolding add_user
add_user_lem b users users' user h = ground arith

add_users-get :
    (b : Bcrypt) (users users' : List (Text × LocalUser)) (rest : List LocalUser)
    → add_users b users rest ≡ ok users'
    → (name : Text) → get name users' ≡ or_else (get name users) (find_user name rest)
unfolding add_users find_user
add_users-get b users users' [] h name = ground arith
add_users-get b users users' (user ∷ rest) h name = elim (Result-cases (add_user b users user)) [
  | inr (e, q) ↦ absurd (ground (arith, q))
  | inl (users1, q) ↦
      let (fresh, e1) = add_user_lem b users users1 user q in
      ground (
        arith,
        q,
        fresh,
        e1,
        add_users-get b users1 users' rest (ground (arith, q)) name,
        get-put user.login_name name user users,
        list_beq_iff user.login_name name,
      )
]

new_service_lem :
    (b : Bcrypt) (cfg : AuthConfig) (s : Service)
    → new_service b cfg ≡ ok s
    → add_users b [] cfg.cfg_users ≡ ok s.users
unfolding new_service
new_service_lem b cfg s h = ground arith

-- A service made from settings knows exactly the users of the settings.
pub users-find :
    (b : Bcrypt) (cfg : AuthConfig) (s : Service) (name : Text)
    → new_service b cfg ≡ ok s
    → get name s.users ≡ find_user name cfg.cfg_users
unfolding find_user get
users-find b cfg s name h =
    add_users-get b [] s.users cfg.cfg_users (new_service_lem b cfg s h) name

-- A text that trims to something is not empty.
not_empty-of-trim : (s : Text) → is_empty (trim_space s) ≡ false → is_empty s ≡ false
unfolding trim_space trim_left
not_empty-of-trim [] h = h
not_empty-of-trim (c ∷ s) h = refl

add_user_complete :
    (b : Bcrypt) (users users' : List (Text × LocalUser)) (user : LocalUser)
    → add_user b users user ≡ ok users'
    → is_complete user ≡ true
unfolding add_user is_complete is_incomplete
add_user_complete b users users' user h = ground (arith, not_empty-of-trim user.login_name)

add_users_complete :
    (b : Bcrypt) (users users' : List (Text × LocalUser)) (rest : List LocalUser)
    → add_users b users rest ≡ ok users'
    → (name : Text) (user : LocalUser) → find_user name rest ≡ some user
    → (is_complete user ≡ true) × (user.login_name ≡ name)
unfolding add_users find_user
add_users_complete b users users' [] h name user f = absurd (ground arith)
add_users_complete b users users' (first ∷ rest) h name user f =
    elim (Result-cases (add_user b users first)) [
      | inr (e, q) ↦ absurd (ground (arith, q))
      | inl (users1, q) ↦ ground (
        arith,
        q,
        add_user_complete b users users1 first q,
        add_users_complete b users1 users' rest (ground (arith, q)) name user,
        list_beq_iff first.login_name name,
      )
    ]

-- Whoever logs in at a service made from settings is a user of these settings, the first of that
-- name, whose password hash accepts the password; the principal is that user's, and its three
-- identifiers are not empty.
pub login-authenticates :
    (b : Bcrypt) (jwt : Jwt) (cfg : AuthConfig) (s : Service)
    → new_service b cfg ≡ ok s
    → (name password : Text) (random : Option Text) (now : ℕ) (p : Principal) (token : Text)
    → login b jwt s name password random now ≡ ok (p, token)
    → (user : LocalUser) × (find_user name cfg.cfg_users ≡ some user)
      × (b.compare user.password_hash password ≡ matches)
      × (p ≡ principal_of user)
      × (p.username ≡ name)
      × (is_incomplete p.user_id p.tenant_id p.username ≡ false)
unfolding login is_complete
login-authenticates b jwt cfg s made name password random now p token h =
    let found = users-find b cfg s name made in
    elim (Option-cases (get name s.users)) [
      | inl q ↦ absurd (ground (arith, q))
      | inr (user, q) ↦
          let f = sym found ∙ q in
          let (complete, named) =
            add_users_complete b [] s.users cfg.cfg_users (new_service_lem b cfg s made) name user
              f in
          (
            user,
            f,
            ground (arith, q),
            ground (arith, q),
            ground (arith, q, named),
            ground (arith, q, complete),
          )
    ]
