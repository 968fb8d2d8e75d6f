-- ===== src/Ping.antt =====
-- main/main.c: `do_ping_cmd` and the end of a ping session. The firmware calls it nowhere; a comment in
-- app_main leaves it to later. The calls of lwIP are recorded, latest first.
mod Tests
use air_shifter_rough.Common.{
  ℕ, ◌*◌, ◌^◌, ◌%◌, Option, none, some, List, [], ◌∷◌, Bytes, ◌==◌, if◌then◌else◌, ◌++◌, codes,
}
use air_shifter_rough.Printf.{dec}

-- an entry of getaddrinfo's result
pub record AddrInfo : Type 0 where
  pub family : ℕ
  pub addr : Bytes

-- AF_INET of lwIP
abbrev pub af_inet : ℕ
af_inet = 2

pub data Address : Type 0 where
  v4 v6 : Bytes → Address

abbrev pub target_addr : AddrInfo → Address
target_addr i = if i.family == af_inet then v4 i.addr else v6 i.addr

-- EXAMPLE_PING_INTERVAL, in seconds
abbrev pub ping_interval : ℕ
ping_interval = 1

pub record PingConfig : Type 0 where
  pub interval_ms : ℕ
  pub count : ℕ
  pub target : Address

pub data PingCall : Type 0 where
  new_session : PingConfig → PingCall
  start delete_session : PingCall

-- `count` is EXAMPLE_PING_COUNT, and `found` what getaddrinfo gives; `none` is an unknown host.
unfoldable pub do_ping_cmd : ℕ → Option AddrInfo → List PingCall → ℕ × List PingCall
do_ping_cmd count none calls = (1, calls)
do_ping_cmd count (some info) calls = (
  0,
  start
      ∷ new_session (record {
        interval_ms = ping_interval * 1000 % 2 ^ 32;
        count = count % 2 ^ 32;
        target = target_addr info;
      })
      ∷ calls,
)

-- the totals of a session
pub record Totals : Type 0 where
  pub transmitted : ℕ
  pub received : ℕ
  pub total_time_ms : ℕ

-- The printed lines, and the deletion of the session. `target` is the text that inet_ntoa or
-- inet6_ntoa gives, `loss` the value of the expression in float.
unfoldable pub cmd_ping_on_ping_end :
    (ℕ → ℕ → ℕ) → Totals → Bytes → List PingCall → List Bytes × List PingCall
unfolding dec
cmd_ping_on_ping_end loss t target calls = (
  (codes "\n--- " ++ target ++ codes " ping statistics ---\n")
      ∷ (dec t.transmitted
          ++ codes "packets transmitted, "
          ++ dec t.received
          ++ codes " received, "
          ++ dec (loss t.received t.transmitted)
          ++ codes "% packet loss, time "
          ++ dec t.total_time_ms
          ++ codes "ms\n")
      ∷ [],
  delete_session ∷ calls,
)

-- what esp_ping_get_profile gives of a reply, and of the whole session
pub record Profile : Type 0 where
  pub seqno : ℕ
  pub ttl : ℕ
  pub recv_len : ℕ
  pub elapsed_time : ℕ

-- The printed line for a reply; `target` is the text that inet_ntoa gives.
unfoldable pub cmd_ping_on_ping_success : Profile → Bytes → Bytes
cmd_ping_on_ping_success r target =
    dec r.recv_len
    ++ codes "bytes from "
    ++ target
    ++ codes " icmp_seq="
    ++ dec r.seqno
    ++ codes " ttl="
    ++ dec r.ttl
    ++ codes " time="
    ++ dec r.elapsed_time
    ++ codes "ms\n"

unfoldable pub cmd_ping_on_ping_timeout : ℕ → Bytes → Bytes
cmd_ping_on_ping_timeout seqno target =
    codes "From " ++ target ++ codes " icmp_seq=" ++ dec seqno ++ codes " timeout\n"
