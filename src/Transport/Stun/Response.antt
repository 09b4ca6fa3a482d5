-- ===== src/Transport/Stun/Response.antt =====
-- What src/transport/nat.rs reads from a STUN Binding Response.
use seam.Prelude.{
  ℕ, zero, suc, ◌+◌, ◌/◌, ◌%◌, ◌<◌, List, [], ◌∷◌, ◌++◌, none, some, true, false, ◌≡◌, ◌≢◌, refl,
  sym, ap, ◌∙◌, arith, ltb, length, length-append, take-append, take,
}
use seam.Prelude.Bits.{bit_xor}
use seam.Prelude.Xor.{bit_xor-cancel, xor_bytes, length-xor_bytes}
use seam.Prelude.Bytes.{slice}
use seam.Transport.Stun.{
  SocketAddr, v4, v6, Found, to_be16, to_be32, from_be16, from_be32, note_attribute,
  parse_attributes, parse_mapped_address, parse_binding_response, preferred, same_bytes,
}
use seam.Transport.Stun.Attributes.{
  Attribute, all_written, noted, parse_attributes-written, length-all_written, noted-append,
  parse_attributes-returns,
}

same_bytes_refl : (xs : List ℕ) → same_bytes xs xs ≡ true
same_bytes_refl [] = refl
same_bytes_refl (x ∷ xs) = ground (arith, same_bytes_refl xs)

same_bytes-eq : (xs ys : List ℕ) → same_bytes xs ys ≡ true → xs ≡ ys
same_bytes-eq [] [] h = refl
same_bytes-eq [] (y ∷ ys) h = absurd (ground arith)
same_bytes-eq (x ∷ xs) [] h = absurd (ground arith)
same_bytes-eq (x ∷ xs) (y ∷ ys) h = ground (arith, same_bytes-eq xs ys)

-- A Binding Response as a server writes it.
abbrev pub response : List ℕ → List Attribute → List ℕ
response txn attributes =
    to_be16 0x0101
    ++ (to_be16 (length (all_written attributes))
        ++ (to_be32 0x2112A442 ++ (txn ++ all_written attributes)))

-- The value of XOR-MAPPED-ADDRESS for an IPv4 address.
abbrev pub xor_value : ℕ → ℕ → List ℕ
xor_value ip port = 0 ∷ 1 ∷ (to_be16 (bit_xor port 0x2112) ++ to_be32 (bit_xor ip 0x2112A442))

parse_mapped_address-xor_value :
    (ip port : ℕ) → parse_mapped_address (xor_value ip port) true 0x2112A442 ≡ some (v4 ip port)
unfolding parse_mapped_address
parse_mapped_address-xor_value ip port = λ i. some (v4 (a i) (b i))
  where
    a : bit_xor (from_be32 (xor_value ip port) 4) 0x2112A442 ≡ ip
    a = ap (λ x. bit_xor x 0x2112A442) (omega arith) ∙ bit_xor-cancel ip 0x2112A442

    b : bit_xor (from_be16 (xor_value ip port) 2) 0x2112 ≡ port
    b = ap (λ x. bit_xor x 0x2112) (omega arith) ∙ bit_xor-cancel port 0x2112

abbrev pub NoneXor : List Attribute → Type 0
NoneXor [] = Unit
NoneXor (a ∷ attributes) = (a.kind ≢ 0x20) × NoneXor attributes

module _ (txn : List ℕ) (long : length txn ≡ 12) where
  parse_binding_response-response :
      (attributes : List Attribute)
      → length (all_written attributes) < 65_536
      → parse_binding_response (response txn attributes) txn
        ≡ preferred (some (noted attributes (none, none)))
  unfolding parse_binding_response
  parse_binding_response-response attributes short =
      let body = all_written attributes in
      let n = length body in
      let bytes = response txn attributes in
      let size : length bytes ≡ 20 + n = omega (arith, length-append txn body, long) in
      let len : from_be16 bytes 2 ≡ n = omega arith in
      let whole : ltb (length bytes) 20 ≡ false = ground (arith, size) in
      let id_ : same_bytes (slice bytes 8 20) txn ≡ true =
        ap (λ u. same_bytes (take u (txn ++ body)) txn) (sym long)
        ∙ ap (λ u. same_bytes u txn) (take-append txn body)
        ∙ same_bytes_refl txn in
      let all_ : ltb (length bytes) (20 + from_be16 bytes 2) ≡ false = ground (arith, size, len) in
      rw (whole, parse_binding_response)
        (rw id_ (
          rw all_ (
            ap preferred (
              ap (λ u. parse_attributes (suc u) bytes (20 + u) 20 (none, none)) len
              ∙ parse_attributes-written attributes (suc n)
                  (1 ∷ 1 ∷ (n / 256) ∷ (n % 256) ∷ 33 ∷ 18 ∷ 164 ∷ 66 ∷ txn) 20 (20 + n)
                  (none, none) (omega (arith, long)) (omega (arith, length-all_written attributes))
                  (sym size)))))

  -- After XOR-MAPPED-ADDRESS, attributes of other types do not change what was found there.
  later_noted :
      (after : List Attribute) (found : Found) (addr : SocketAddr)
      → NoneXor after
      → found.1 ≡ some addr
      → (noted after found).1 ≡ some addr
  unfolding note_attribute
  later_noted [] found addr others h = h
  later_noted (a ∷ after) found addr others h =
      later_noted after (note_attribute a.kind a.value found) addr others.1
        (ground (arith, others.0))

  preferred_xor :
      (found : Found) (addr : SocketAddr) → found.1 ≡ some addr → preferred (some found) ≡ some addr
  preferred_xor (mapped, none) addr h = cc
  preferred_xor (mapped, some a) addr h = h

  -- To a Binding Response with the transaction's identifier of 12 bytes, whatever its attributes
  -- are before and after XOR-MAPPED-ADDRESS for an IPv4 address, those after of other types and all
  -- of them together below 65536 bytes, the parser gives that address and its port.
  pub parse_binding_response-address :
      (before after : List Attribute) (ip port : ℕ)
      → length (all_written (before ++ (record { kind = 0x20; value = xor_value ip port } ∷ after)))
        < 65_536
      → NoneXor after
      → parse_binding_response
          (response txn (before ++ (record { kind = 0x20; value = xor_value ip port } ∷ after)))
          txn
        ≡ some (v4 ip port)
  unfolding note_attribute
  parse_binding_response-address before after ip port short others =
      let here : Attribute = record { kind = 0x20; value = xor_value ip port } in
      let found = noted before (none, none) in
      parse_binding_response-response (before ++ (here ∷ after)) short
      ∙ ap (λ f. preferred (some f)) (noted-append before (here ∷ after) (none, none))
      ∙ preferred_xor (noted after (note_attribute 0x20 (xor_value ip port) found)) (v4 ip port) (
          later_noted after (note_attribute 0x20 (xor_value ip port) found) (v4 ip port) others
            (parse_mapped_address-xor_value ip port))

-- The fuel that the parser gives to the loop over the attributes is enough, whatever the message.
attributes-end :
    (bytes : List ℕ) (attr_len : ℕ)
    → (found : Found) × (parse_attributes (suc attr_len) bytes (20 + attr_len) 20 (none, none)
        ≡ some found)
attributes-end bytes attr_len =
    parse_attributes-returns (suc attr_len) bytes (20 + attr_len) 20 (none, none) (omega arith)
      (omega arith)

-- The value of XOR-MAPPED-ADDRESS for the IPv6 address of the bytes `a`, `b`, `c`, `d` and `rest`:
-- the magic cookie masks the first four bytes and the transaction's identifier the others.
abbrev pub xor_value_v6 : List ℕ → (a b c d : ℕ) → List ℕ → ℕ → List ℕ
xor_value_v6 txn a b c d rest port =
    0
    ∷ 2
    ∷ (to_be16 (bit_xor port 0x2112)
        ++ xor_bytes (a ∷ b ∷ c ∷ d ∷ rest) (0x21 ∷ 0x12 ∷ 0xA4 ∷ 0x42 ∷ txn))

take_all : (xs : List ℕ) (n : ℕ) → length xs ≡ n → take n xs ≡ xs
take_all [] zero h = refl
take_all [] (suc n) h = absurd (omega (arith, h))
take_all (x ∷ xs) zero h = absurd (omega (arith, h))
take_all (x ∷ xs) (suc n) h = ap (◌∷◌ x) (take_all xs n (omega (arith, h)))

xor_bytes-nil : (xs : List ℕ) → xor_bytes xs [] ≡ xs
xor_bytes-nil [] = refl
xor_bytes-nil (x ∷ xs) = refl

-- Of an IPv6 address under XOR-MAPPED-ADDRESS the parser restores the port and the first four bytes
-- only: the other twelve stay masked with the transaction's identifier.
pub parse_mapped_address-xor_value_v6 :
    (txn : List ℕ) (a b c d : ℕ) (rest : List ℕ) (port : ℕ)
    → length rest ≡ 12
    → parse_mapped_address (xor_value_v6 txn a b c d rest port) true 0x2112A442
      ≡ some (v6 (a ∷ b ∷ c ∷ d ∷ xor_bytes rest txn) port)
unfolding parse_mapped_address
parse_mapped_address-xor_value_v6 txn a b c d rest port h =
    let masked = xor_bytes rest txn in
    let size : length masked ≡ 12 = length-xor_bytes rest txn ∙ h in
    let long : ltb (length (xor_value_v6 txn a b c d rest port)) 20 ≡ false =
      ground (arith, size) in
    let back : bit_xor (from_be16 (xor_value_v6 txn a b c d rest port) 2) 0x2112 ≡ port =
      ap (λ x. bit_xor x 0x2112) (omega arith) ∙ bit_xor-cancel port 0x2112 in
    let enough : ltb (length (xor_value_v6 txn a b c d rest port)) 4 ≡ false =
      ground (arith, size) in
    let whole : take 12 masked ≡ masked = take_all masked 12 size in
    rw (enough, parse_mapped_address)
      (rw long (λ i. some (
        v6
          (bit_xor-cancel a 0x21 i
            ∷ bit_xor-cancel b 0x12 i
            ∷ bit_xor-cancel c 0xA4 i
            ∷ bit_xor-cancel d 0x42 i
            ∷ (ap (λ u. xor_bytes u []) whole ∙ xor_bytes-nil masked) i)
          (back i))))
