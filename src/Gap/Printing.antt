-- ===== src/Gap/Printing.antt =====
-- main/main.c: the lines that `bleprph_print_conn_desc` and `bleprph_on_sync` log, and what can be read
-- from them.
mod Tests
use air_shifter_rough.Common.{
  ℕ, ◌+◌, ◌-◌, ◌*◌, ◌<◌, ◌≤◌, ◌≡◌, refl, false, ap, ap₂, sym, ◌∙◌, Option, List, [], ◌∷◌, ◌++◌,
  Bytes, arith, length, length-append, get_or, drop, take, append_assoc, map, codes, pos,
}
use air_shifter_rough.CLib.{atoi, isdigit, long_max}
use air_shifter_rough.Printf.{dec, hex2, hex_digit, unhex, unhex-hex2, atoi-dec}

-- ble_addr_t: the type and the six bytes, the lowest first
pub record Addr : Type 0 where
  pub type : ℕ
  pub val : Bytes

pub record ConnDesc : Type 0 where
  pub conn_handle : ℕ
  pub our_ota_addr : Addr
  pub our_id_addr : Addr
  pub peer_ota_addr : Addr
  pub peer_id_addr : Addr
  pub conn_itvl : ℕ
  pub conn_latency : ℕ
  pub supervision_timeout : ℕ
  pub encrypted : ℕ
  pub authenticated : ℕ
  pub bonded : ℕ

-- %02x:%02x:%02x:%02x:%02x:%02x of the bytes, the highest first
abbrev pub print_addr : Bytes → Bytes
print_addr v =
    hex2 (get_or v 5 0)
    ++ (b':' ∷ hex2 (get_or v 4 0))
    ++ (b':' ∷ hex2 (get_or v 3 0))
    ++ (b':' ∷ hex2 (get_or v 2 0))
    ++ (b':' ∷ hex2 (get_or v 1 0))
    ++ (b':' ∷ hex2 (get_or v 0 0))

-- "…_type=%d …="
abbrev pub typed_head : Bytes → Addr → Bytes
typed_head name a = name ++ codes "_type=" ++ dec a.type ++ codes " " ++ name ++ codes "="

abbrev pub print_typed : Bytes → Addr → Bytes
print_typed name a = typed_head name a ++ print_addr a.val

-- the lines in their order
unfoldable pub bleprph_print_conn_desc : ConnDesc → List Bytes
bleprph_print_conn_desc d =
    (codes "handle="
      ++ (dec d.conn_handle ++ (b' ' ∷ print_typed (codes "our_ota_addr") d.our_ota_addr)))
    ∷ print_typed (codes "our_id_addr") d.our_id_addr
    ∷ print_typed (codes "peer_ota_addr") d.peer_ota_addr
    ∷ print_typed (codes "peer_id_addr") d.peer_id_addr
    ∷ (codes "conn_itvl="
        ++ dec d.conn_itvl
        ++ codes " conn_latency="
        ++ dec d.conn_latency
        ++ codes " supervision_timeout="
        ++ dec d.supervision_timeout
        ++ codes " encrypted="
        ++ dec d.encrypted
        ++ codes " authenticated="
        ++ dec d.authenticated
        ++ codes " bonded="
        ++ dec d.bonded)
    ∷ []

-- the line of bleprph_on_sync with the address that ble_hs_id_copy_addr gave
unfoldable pub sync_line : Bytes → Bytes
sync_line addr_val = codes "Device Address:" ++ print_addr addr_val

-- A reader of an address: pairs of digits with one byte between them, the highest first.
abbrev pub read_addr : Bytes → Bytes
read_addr (a ∷ b ∷ []) = (16 * unhex a + unhex b) ∷ []
read_addr (a ∷ b ∷ c ∷ rest) = read_addr rest ++ (16 * unhex a + unhex b) ∷ []
read_addr _ = []

-- the last n bytes
abbrev pub last_bytes : ℕ → Bytes → Bytes
last_bytes n s = drop (length s - n) s

-- six bytes
pub data IsAddr : Bytes → Type 0 where
  six :
      (a b c d e f : ℕ)
      → a < 256
      → b < 256
      → c < 256
      → d < 256
      → e < 256
      → f < 256
      → IsAddr (a ∷ b ∷ c ∷ d ∷ e ∷ f ∷ [])

pub read_addr-print_addr : (v : Bytes) → IsAddr v → read_addr (print_addr v) ≡ v
read_addr-print_addr _ (six a b c d e f x₀ x₁ x₂ x₃ x₄ x₅) =
    rw
      (
        unhex-hex2 a x₀,
        unhex-hex2 b x₁,
        unhex-hex2 c x₂,
        unhex-hex2 d x₃,
        unhex-hex2 e x₄,
        unhex-hex2 f x₅,
      )
      refl

drop-append : (xs ys : Bytes) → drop (length xs) (xs ++ ys) ≡ ys
drop-append [] ys = refl
drop-append (x ∷ xs) ys = drop-append xs ys

last_bytes-append : (xs ys : Bytes) → last_bytes (length ys) (xs ++ ys) ≡ ys
last_bytes-append xs ys =
    let less : length (xs ++ ys) - length ys ≡ length xs = omega (arith, length-append xs ys) in
    rw less (drop-append xs ys)

space_Ends : isdigit b' ' ≡ false
unfolding isdigit
space_Ends = refl

-- the address at the end of a line
abbrev pub address_of : Bytes → Bytes
address_of line = read_addr (last_bytes 17 line)

address_of-append : (xs v : Bytes) → IsAddr v → address_of (xs ++ print_addr v) ≡ v
address_of-append xs v a =
    ap read_addr (last_bytes-append xs (print_addr v)) ∙ read_addr-print_addr v a

-- For a connection with a handle of at most 2 ^ 31 - 1 and four addresses of six bytes: the last 17
-- characters of each of the first four lines of bleprph_print_conn_desc, read as six pairs of
-- hexadecimal digits with the highest byte first, are the bytes of the four addresses in their
-- order, and the digits from the eighth character of the first line on are the handle.
pub bleprph_print_conn_desc-reads_back :
    (d : ConnDesc)
    → d.conn_handle ≤ long_max
    → IsAddr d.our_ota_addr.val
    → IsAddr d.our_id_addr.val
    → IsAddr d.peer_ota_addr.val
    → IsAddr d.peer_id_addr.val
    → let lines = bleprph_print_conn_desc d in
      (map address_of (take 4 lines)
        ≡ d.our_ota_addr.val ∷ d.our_id_addr.val ∷ d.peer_ota_addr.val ∷ d.peer_id_addr.val ∷ [])
      × (map (λ l. atoi (drop 7 l)) (take 1 lines) ≡ pos d.conn_handle ∷ [])
unfolding bleprph_print_conn_desc
bleprph_print_conn_desc-reads_back d small a b e f =
    let head = typed_head (codes "our_ota_addr") d.our_ota_addr in
    let rest = b' ' ∷ print_typed (codes "our_ota_addr") d.our_ota_addr in
    let first =
      ap (λ t. address_of (codes "handle=" ++ t))
        (sym (append_assoc (dec d.conn_handle) (b' ' ∷ head) (print_addr d.our_ota_addr.val)))
      ∙ address_of-append (codes "handle=" ++ (dec d.conn_handle ++ (b' ' ∷ head)))
          d.our_ota_addr.val a in
    (
      ap₂ ◌∷◌ first (
          ap₂ ◌∷◌
            (address_of-append (typed_head (codes "our_id_addr") d.our_id_addr) d.our_id_addr.val b)
            (ap₂ ◌∷◌
              (address_of-append (typed_head (codes "peer_ota_addr") d.peer_ota_addr)
                d.peer_ota_addr.val e)
              (ap (λ v. v ∷ [])
                (address_of-append (typed_head (codes "peer_id_addr") d.peer_id_addr)
                  d.peer_id_addr.val f)))),
      ap (λ n. n ∷ []) (atoi-dec d.conn_handle rest small space_Ends),
    )
