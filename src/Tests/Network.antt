-- ===== src/Tests/Network.antt =====
-- src/proxy.c, src/acceptor.c, src/epoll_loop.c, src/main.c and src/util.c at concrete inputs.
use nexus_gateway.Acceptor.{
  acceptor_listen, bind_and_listen, bind_to, close_socket, listen_on, reuse_addr, reuse_port,
}
use nexus_gateway.Base.{
  List, Option, [], arith, bytes_eq, codes, false, none, refl, some, suc, true, zero, ℕ, ◌∷◌, ◌≡◌,
}
use nexus_gateway.Base.Int.{pos}
use nexus_gateway.Config.{config_load}
use nexus_gateway.EpollLoop.{
  EpollCall, add_fd, del_fd, epoll_call, epoll_calls, last_given, put_user, user_of,
  user_of-epoll_calls,
}
use nexus_gateway.Main.{load_error, main_program, usage_error}
use nexus_gateway.Proxy.{
  WriteResult, bytes_taken, forward_request, read_response, would_block, wrote,
}
use nexus_gateway.Proxy.Sent.{NeverFails, capacity, forward_request-whole}
use nexus_gateway.Util.{mono_ms}
use nexus_gateway.Util.Atoi.{atoi}
use nexus_gateway.Util.Decimal.{atoi-decimal, decimal}

-- A socket that takes two bytes, then none, then three at a time.
abbrev pieces : ℕ → WriteResult
pieces zero = wrote 2
pieces (suc zero) = would_block
pieces (suc (suc t)) = wrote 3

pieces-NeverFails : NeverFails pieces
pieces-NeverFails zero = λ e. cc
pieces-NeverFails (suc zero) = λ e. cc
pieces-NeverFails (suc (suc t)) = λ e. cc

forward_request-whole_example :
    forward_request 4 pieces (codes "GET /a") ≡ some (codes "GET /a", true)
unfolding capacity bytes_taken
forward_request-whole_example =
    forward_request-whole 4 pieces (codes "GET /a") pieces-NeverFails (omega arith)

read_response_test : read_response 4 (some (codes "abcdef")) ≡ some (codes "abc")
unfolding read_response
read_response_test = refl

abbrev no_users : ℕ → Option ℕ
no_users i = none

abbrev some_calls : List (EpollCall ℕ)
some_calls = add_fd 5 (some 1) ∷ add_fd 6 (some 2) ∷ del_fd 5 ∷ []

user_of-epoll_calls_example :
    user_of (epoll_calls no_users some_calls) 6 ≡ last_given (user_of no_users 6) 6 some_calls
user_of-epoll_calls_example =
    user_of-epoll_calls no_users 6 some_calls (omega arith)
      (omega arith, (omega arith, (omega arith, tt)))

-- Descriptors 1024 apart share an entry.
abbrev shared_calls : List (EpollCall ℕ)
shared_calls = add_fd 5 (some 1) ∷ del_fd 1029 ∷ []

collision_test : user_of (epoll_calls no_users shared_calls) 5 ≡ none
unfolding user_of epoll_calls epoll_call put_user
collision_test = refl

listen_test :
    acceptor_listen
      (codes "0.0.0.0")
      (pos 80)
      true
      (record { socket_fd = some 4; bind_ok = true; listen_ok = false })
    ≡ (
      none,
      reuse_addr 4
          ∷ reuse_port 4
          ∷ bind_to 4 true (codes "0.0.0.0") (pos 80)
          ∷ listen_on 4
          ∷ close_socket 4
          ∷ [],
    )
unfolding acceptor_listen bind_and_listen bytes_eq
listen_test = refl

main_test :
    (main_program (codes "nexus" ∷ []) (λ p. none) ≡ usage_error)
    × (main_program (codes "nexus" ∷ codes "a.ini" ∷ []) (λ p. none) ≡ load_error)
unfolding main_program config_load
main_test = (refl, refl)

atoi-decimal_example : atoi (decimal 1024) ≡ pos 1024
atoi-decimal_example = atoi-decimal 1024

clock_test : mono_ms 12 345678901 ≡ 12345
unfolding mono_ms
clock_test = refl
