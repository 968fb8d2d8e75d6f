-- ===== src/Ping/Tests.antt =====
-- Runs of the ping example of main/main.c.
use air_shifter_rough.Common.{◌≡◌, refl, codes, none, some, [], ◌∷◌}
use air_shifter_rough.Printf.{dec, digits, digits_before}
use air_shifter_rough.Ping.{
  v4, new_session, start, delete_session, do_ping_cmd, cmd_ping_on_ping_end,
  cmd_ping_on_ping_success, cmd_ping_on_ping_timeout,
}

unknown_host : do_ping_cmd 5 none [] ≡ (1, [])
unfolding do_ping_cmd
unknown_host = refl

one_session :
    cmd_ping_on_ping_end
      (λ received transmitted. 20)
      (record { transmitted = 5; received = 4; total_time_ms = 5012 })
      (codes "10.0.0.1")
      (do_ping_cmd 5 (some (record { family = 2; addr = 10 ∷ 0 ∷ 0 ∷ 1 ∷ [] })) []).1
    ≡ (
      codes "\n--- 10.0.0.1 ping statistics ---\n"
          ∷ codes "5packets transmitted, 4 received, 20% packet loss, time 5012ms\n"
          ∷ [],
      delete_session
          ∷ start
          ∷ new_session
              (record { interval_ms = 1000; count = 5; target = v4 (10 ∷ 0 ∷ 0 ∷ 1 ∷ []) })
          ∷ [],
    )
unfolding do_ping_cmd cmd_ping_on_ping_end dec digits digits_before
one_session = refl

reply_line :
    cmd_ping_on_ping_success
      (record { seqno = 3; ttl = 64; recv_len = 84; elapsed_time = 120 })
      (codes "10.0.0.1")
    ≡ codes "84bytes from 10.0.0.1 icmp_seq=3 ttl=64 time=120ms\n"
unfolding cmd_ping_on_ping_success dec digits digits_before
reply_line = refl

timeout_line :
    cmd_ping_on_ping_timeout 12 (codes "10.0.0.1") ≡ codes "From 10.0.0.1 icmp_seq=12 timeout\n"
unfolding cmd_ping_on_ping_timeout dec digits digits_before
timeout_line = refl
