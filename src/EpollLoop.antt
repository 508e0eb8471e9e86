-- ===== src/EpollLoop.antt =====
-- src/epoll_loop.c: the table of what each descriptor was added with. The system's own list of
-- descriptors is behind `epoll_ctl`; the events that `epoll_wait` reports are an argument.
use nexus_gateway.Base.{
  All, Bool-cases, List, Option, [], ap, arith, false, if◌then◌else◌, inl, inr, none, not, refl,
  some, true, ℕ, ◌%◌, ◌<◌, ◌==◌, ◌∙◌, ◌∷◌, ◌≡◌,
}
use nexus_gateway.Base.Int.{ltb_ℤ, negsuc, pos, ℤ}

-- MAX_EVENTS
abbrev pub max_events : ℕ
max_events = 1024

-- `nexus_epoll_init`, given what `epoll_create1` answers: `g_epfd`, and what is returned.
unfoldable pub epoll_init : ℤ → ℤ × ℤ
epoll_init created = (created, if ltb_ℤ created (pos 0) then negsuc 0 else pos 0)

-- `nexus_epoll_close`: `g_epfd`, and the descriptor that is closed.
unfoldable pub epoll_close : ℤ → ℤ × Option ℤ
epoll_close epfd = if not (ltb_ℤ epfd (pos 0)) then (negsuc 0, some epfd) else (epfd, none)

-- Closing again closes nothing.
pub epoll_close-epoll_close : (epfd : ℤ) → (epoll_close (epoll_close epfd).0).1 ≡ none
unfolding epoll_close
epoll_close-epoll_close epfd = ground arith

-- A call on a descriptor; the user of `nexus_epoll_add` and `nexus_epoll_mod` is `none` for NULL.
pub data EpollCall {ℓ} (User : Type ℓ) : Type ℓ where
  add_fd mod_fd : ℕ → Option User → EpollCall User
  del_fd : ℕ → EpollCall User

module _ {ℓ} {User : Type ℓ} where
  -- `g_user_data[fd % MAX_EVENTS] = user`
  unfoldable pub put_user : (ℕ → Option User) → ℕ → Option User → ℕ → Option User
  put_user table fd user i = if i == fd % max_events then user else table i

  -- The table behind a call.
  unfoldable pub epoll_call : (ℕ → Option User) → EpollCall User → ℕ → Option User
  epoll_call table (add_fd fd user) = put_user table fd user
  epoll_call table (mod_fd fd user) = put_user table fd user
  epoll_call table (del_fd fd) = put_user table fd none

  unfoldable pub epoll_calls : (ℕ → Option User) → List (EpollCall User) → ℕ → Option User
  epoll_calls table [] = table
  epoll_calls table (c ∷ cs) = epoll_calls (epoll_call table c) cs

  -- What the callback of `nexus_epoll_wait` is given for a descriptor.
  unfoldable pub user_of : (ℕ → Option User) → ℕ → Option User
  user_of table fd = table (fd % max_events)

  -- The descriptor of a call, and what the call leaves for it.
  abbrev fd_of : EpollCall User → ℕ
  fd_of (add_fd fd user) = fd
  fd_of (mod_fd fd user) = fd
  fd_of (del_fd fd) = fd

  abbrev given : EpollCall User → Option User
  given (add_fd fd user) = user
  given (mod_fd fd user) = user
  given (del_fd fd) = none

  -- The loop of `nexus_epoll_wait` over what was reported, descriptors with their events; a callback
  -- changes the table as well.
  unfoldable pub epoll_wait :
      {S : Type ℓ}
      → (ℕ → ℕ → Option User → (ℕ → Option User) × S → (ℕ → Option User) × S)
      → List (ℕ × ℕ)
      → (ℕ → Option User) × S
      → (ℕ → Option User) × S
  epoll_wait cb [] state = state
  epoll_wait cb ((fd, events) ∷ reported) state =
      epoll_wait cb reported (cb fd events (user_of state.0 fd) state)

  epoll_call-put :
      (table : ℕ → Option User) (c : EpollCall User)
      → epoll_call table c ≡ put_user table (fd_of c) (given c)
  unfolding epoll_call
  epoll_call-put table (add_fd fd user) = refl
  epoll_call-put table (mod_fd fd user) = refl
  epoll_call-put table (del_fd fd) = refl

  -- The user that was given last with the descriptor itself.
  unfoldable pub last_given : Option User → ℕ → List (EpollCall User) → Option User
  last_given user fd [] = user
  last_given user fd (c ∷ cs) = last_given (if fd_of c == fd then given c else user) fd cs

  user_of-call :
      (table : ℕ → Option User) (fd : ℕ) (c : EpollCall User)
      → fd < max_events
      → fd_of c < max_events
      → user_of (epoll_call table c) fd ≡ (if fd_of c == fd then given c else user_of table fd)
  unfolding user_of put_user
  user_of-call table fd c small small' = elim (Bool-cases (fd_of c == fd)) [
    | inl e ↦
        let hit : (fd % max_events == fd_of c % max_events) ≡ true = ground (arith, e) in
        rw (epoll_call-put table c, hit, e) refl
    | inr e ↦
        let miss : (fd % max_events == fd_of c % max_events) ≡ false = ground (arith, e) in
        rw (epoll_call-put table c, miss, e) refl
  ]

  -- While all descriptors are below 1024, the table gives for a descriptor what the last call on
  -- it gave, as a map of its own entries does.
  pub user_of-epoll_calls :
      (table : ℕ → Option User) (fd : ℕ) (cs : List (EpollCall User))
      → fd < max_events
      → All (λ c. fd_of c < max_events) cs
      → user_of (epoll_calls table cs) fd ≡ last_given (user_of table fd) fd cs
  unfolding epoll_calls last_given
  user_of-epoll_calls table fd [] small h = refl
  user_of-epoll_calls table fd (c ∷ cs) small h =
      user_of-epoll_calls (epoll_call table c) fd cs small h.1
      ∙ ap (λ u. last_given u fd cs) (user_of-call table fd c small h.0)
