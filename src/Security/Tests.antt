-- ===== src/Security/Tests.antt =====
-- Tests of main/security.c, and its theorems at concrete states.
use air_shifter_rough.Common.{
  ℕ, ◌≡◌, ap, get_or, Option, ◌↔◌, inl, inr, refl, true, false, none, some, List, [], ◌∷◌, Bytes,
  arith, ◌≤◌, ◌+◌, replicate, ◌/◌,
}
use air_shifter_rough.Platform.{Platform}
use air_shifter_rough.Testing.{toy, toy_hmac, toy-HmacLength}
use air_shifter_rough.Security.Slots.{Slot, zeroed, find_entry, find_free, alloc_entry}
use air_shifter_rough.Security.Nonce.{fill_nonce}
use air_shifter_rough.Security.Sessions.{session, HasRoom}
use air_shifter_rough.Security.Filling.{random_bytes}
use air_shifter_rough.Security.Invariant.{IsValid, sec_init-IsValid, sec_on_connect-IsValid}
use air_shifter_rough.Security.Connect.{
  IsFresh, IsPublished, sec_on_connect_opens, sec_on_connect_isolates,
}
use air_shifter_rough.Security.Respond.{
  Answers, sec_handle_auth_response_iff, sec_clear_conn_removes,
}
use air_shifter_rough.Security.History.{
  Event, connects, responds, run, HasProved, sec_is_conn_authenticated-HasProved, run-IsValid, step,
}
use air_shifter_rough.Security.Looping.{Ends, fill_nonce-Ends}
use air_shifter_rough.Security.Model.{Reaches, passes}
use air_shifter_rough.Security.View.{model}
use air_shifter_rough.Security.Refinement.{run_refines}
use air_shifter_rough.Security.Handshake.{handshake}
use air_shifter_rough.Security.ZeroHandle.{zero_handle_evicted}
use air_shifter_rough.Security.Replay.{replay_refused}
use air_shifter_rough.Security.{
  Security, statics, sec_init, default_key, find_or_alloc, sec_on_connect, sec_handle_auth_response,
  sec_is_conn_authenticated, sec_clear_conn, nonce_lifetime_ms, challenge, generate_nonce_for_index,
  update_auth_char_value_and_notify, respond_at, compute_hmac_sha256, check_response, diff_loop,
}

abbrev platform : Platform
platform = toy []

abbrev booted : Security
booted = sec_init statics

-- esp_random gives 0, 1, 2, …
abbrev random : ℕ → ℕ
random k = k

abbrev connected : Security
connected = sec_on_connect 1000 random 1 booted

abbrev answer : Bytes
answer = toy_hmac default_key (random_bytes random 16)

abbrev proved : Security
proved = (sec_handle_auth_response platform 2_000_000 1 (some answer) connected).1

booted_room : (h : ℕ) → HasRoom h booted.conns
unfolding sec_init
booted_room h = inr (λ n. cc)

sec_on_connect_opens_example :
    ((e : Slot) × (session 1 connected.conns ≡ some e) × IsFresh 1000 random 16 1 e)
    × IsPublished random 16 [] connected
unfolding sec_init
sec_on_connect_opens_example =
    sec_on_connect_opens 1000 random 1 booted sec_init-IsValid (booted_room 1)

sec_on_connect_isolates_example :
    session 1 (sec_on_connect 2000 random 2 connected).conns ≡ session 1 connected.conns
sec_on_connect_isolates_example =
    sec_on_connect_isolates 2000 random 2 1 connected
      (sec_on_connect-IsValid 1000 random 1 booted sec_init-IsValid) (omega arith) (omega arith)

handshake_example :
    ((sec_handle_auth_response platform 2_000_000 1 (some answer) connected).0 ≡ true)
    × ((sec_is_conn_authenticated 3_000_000 1 proved ≡ true)
        ↔ (3_000_000 / 1000 ≤ 1000 / 1000 + nonce_lifetime_ms))
unfolding sec_init
handshake_example =
    handshake platform random 1 default_key answer booted 1000 2_000_000 3_000_000
      (toy-HmacLength []) sec_init-IsValid (booted_room 1) refl refl (omega arith) (omega arith)
      (omega arith) (omega arith)

wrong_answer :
    (sec_handle_auth_response platform 2_000_000 1 (some (replicate 32 0)) connected).0 ≡ false
unfolding sec_init sec_on_connect find_or_alloc alloc_entry find_free find_entry challenge
    generate_nonce_for_index update_auth_char_value_and_notify fill_nonce sec_handle_auth_response
    respond_at compute_hmac_sha256 check_response diff_loop
wrong_answer = refl

right_answer : (sec_handle_auth_response platform 2_000_000 1 (some answer) connected).0 ≡ true
right_answer = handshake_example.0

sec_handle_auth_response_iff_example :
    ((sec_handle_auth_response platform 2_000_000 1 (some answer) connected).0 ≡ true) ↔ (
      (e : Slot) × (session 1 connected.conns ≡ some e)
      × Answers platform 2_000_000 connected e answer)
sec_handle_auth_response_iff_example =
    sec_handle_auth_response_iff platform 2_000_000 1 answer connected (toy-HmacLength [])

sec_clear_conn_removes_test : session 1 (sec_clear_conn 1 connected).conns ≡ none
sec_clear_conn_removes_test =
    sec_clear_conn_removes 1 1 connected
      (sec_on_connect-IsValid 1000 random 1 booted sec_init-IsValid) (omega arith) (omega arith)

abbrev history : List Event
history = responds 2_000_000 1 (some answer) ∷ connects 1000 random 1 ∷ []

run-IsValid_test : IsValid (run platform history)
run-IsValid_test = run-IsValid platform history

history_passes : sec_is_conn_authenticated 3_000_000 1 (run platform history) ≡ true
unfolding run step
history_passes = handshake_example.1.1 (omega arith)

sec_is_conn_authenticated-HasProved_test : HasProved platform 1 history
sec_is_conn_authenticated-HasProved_test =
    sec_is_conn_authenticated-HasProved platform 3_000_000 1 history (omega arith) history_passes

run_refines_example :
    Reaches platform history (model (run platform history))
    × ((us h : ℕ)
        → sec_is_conn_authenticated us h (run platform history)
          ≡ passes us h (model (run platform history)))
run_refines_example = run_refines platform history (toy-HmacLength []) (omega arith)

-- a length that is no multiple of four
fill_nonce-Ends_test :
    Ends random 6 0 0 (replicate 32 0) (fill_nonce 6 random 0 6 0 (replicate 32 0))
fill_nonce-Ends_test = fill_nonce-Ends random 6 (replicate 32 0) (omega arith)

-- connection 0, authenticated in the first slot
abbrev zero_proved : Slot
zero_proved = record zeroed { authenticated = true; nonce_len = 16; created_ts_ms = 1 }

abbrev zero_connected : Security
zero_connected = record statics { conns = zero_proved ∷ zeroed ∷ zeroed ∷ [] }

zero_connected-IsValid : IsValid zero_connected
zero_connected-IsValid = record {
  table_size = refl;
  distinct = (inl refl, (inl refl, (inl refl, tt)));
  buffers = ((refl, omega arith), ((refl, omega arith), ((refl, omega arith), tt)));
  len_pos = omega arith;
  len_fits = omega arith;
  value_size = refl;
  value_fits = omega arith;
}

zero_passes : sec_is_conn_authenticated 2_000_000 0 zero_connected ≡ true
unfolding sec_is_conn_authenticated find_entry
zero_passes = refl

zero_handle_evicted_example :
    sec_is_conn_authenticated 2_000_000 0 (sec_on_connect 2_000_000 random 1 zero_connected) ≡ false
zero_handle_evicted_example =
    zero_handle_evicted 2_000_000 2_000_000 random 1 zero_proved (zeroed ∷ zeroed ∷ [])
      zero_connected zero_connected-IsValid refl refl (refl, (refl, tt)) (omega arith) refl

abbrev mac_of : Option Bytes → Bytes
mac_of none = []
mac_of (some mac) = mac

-- the answer to one challenge, sent for another
replay_refused_example :
    let other = sec_on_connect 5_000_000 (λ k. k + 1) 1 booted in
    (sec_handle_auth_response platform 6_000_000 1 (some answer) other ≡ (false, other))
    × (sec_is_conn_authenticated 7_000_000 1 other ≡ false)
unfolding sec_init
replay_refused_example =
    replay_refused platform (λ k. k + 1) 1 default_key (random_bytes random 16) answer booted
      5_000_000 6_000_000 7_000_000 (toy-HmacLength []) sec_init-IsValid (booted_room 1) refl refl
      (λ e. omega (arith, ap (λ o. get_or (mac_of o) 8 0) e))
