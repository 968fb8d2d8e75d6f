-- ===== src/Gap/Printing/Tests.antt =====
-- The lines for a connection, and what is read from them.
use air_shifter_rough.Common.{◌≡◌, refl, [], ◌∷◌, Bytes, arith, map, take, drop, codes, pos}
use air_shifter_rough.CLib.{atoi}
use air_shifter_rough.Printf.{dec, digits, digits_before}
use air_shifter_rough.Gap.Printing.{
  ConnDesc, IsAddr, six, address_of, sync_line, bleprph_print_conn_desc,
  bleprph_print_conn_desc-reads_back,
}

abbrev ours : Bytes
ours = 1 ∷ 2 ∷ 3 ∷ 0xab ∷ 0xcd ∷ 0xef ∷ []

abbrev theirs : Bytes
theirs = 10 ∷ 20 ∷ 30 ∷ 40 ∷ 50 ∷ 60 ∷ []

abbrev desc : ConnDesc
desc = record {
  conn_handle = 7;
  our_ota_addr = record { type = 0; val = ours };
  our_id_addr = record { type = 0; val = ours };
  peer_ota_addr = record { type = 1; val = theirs };
  peer_id_addr = record { type = 1; val = theirs };
  conn_itvl = 24;
  conn_latency = 0;
  supervision_timeout = 400;
  encrypted = 0;
  authenticated = 0;
  bonded = 0;
}

first_line :
    take 1 (bleprph_print_conn_desc desc)
    ≡ codes "handle=7 our_ota_addr_type=0 our_ota_addr=ef:cd:ab:03:02:01" ∷ []
unfolding bleprph_print_conn_desc dec digits digits_before
first_line = refl

synced_line : sync_line ours ≡ codes "Device Address:ef:cd:ab:03:02:01"
unfolding sync_line
synced_line = refl

ours-IsAddr : IsAddr ours
ours-IsAddr =
    six 1 2 3 0xab 0xcd 0xef (omega arith) (omega arith) (omega arith) (omega arith) (omega arith)
      (omega arith)

theirs-IsAddr : IsAddr theirs
theirs-IsAddr =
    six 10 20 30 40 50 60 (omega arith) (omega arith) (omega arith) (omega arith) (omega arith)
      (omega arith)

bleprph_print_conn_desc-reads_back_example :
    (map address_of (take 4 (bleprph_print_conn_desc desc)) ≡ ours ∷ ours ∷ theirs ∷ theirs ∷ [])
    × (map (λ l. atoi (drop 7 l)) (take 1 (bleprph_print_conn_desc desc)) ≡ pos 7 ∷ [])
bleprph_print_conn_desc-reads_back_example =
    bleprph_print_conn_desc-reads_back desc (omega arith) ours-IsAddr ours-IsAddr theirs-IsAddr
      theirs-IsAddr
