-- ===== src/Endian/Bytes.antt =====
-- Storing an integer and reading it back, and network order through `htons` and `htonl`.
use mathlib.Core.List.{reverse, reverse-cons, reverse-reverse}
use native.Mathlib.Nat.{pow-suc}
use reechat_base.Base.{
  ℕ, zero, suc, ◌+◌, ◌*◌, ◌/◌, ◌%◌, ◌^◌, ◌<◌, ◌≡◌, refl, ap, ap₂, ◌∙◌, List, [], ◌∷◌, ◌++◌, length,
  length-append, arith,
}
use reechat_base.Endian.{
  Host, little, big, le_bytes, be_bytes, of_le, of_be, memory, of_memory, host_to_network,
}

abbrev pub AllBytes : List ℕ → Type 0
AllBytes [] = Unit {0}
AllBytes (b ∷ bs) = (b < 256) × AllBytes bs

pub length-le_bytes : (n x : ℕ) → length (le_bytes n x) ≡ n
length-le_bytes zero x = refl
length-le_bytes (suc n) x = ap suc (length-le_bytes n (x / 256))

pub length-reverse : (xs : List ℕ) → length (reverse xs) ≡ length xs
length-reverse [] = refl
length-reverse (x ∷ xs) =
    omega
      (arith, ap length (reverse-cons x xs), length-append (reverse xs) (x ∷ []), length-reverse xs)

pub length-memory : (h : Host) (n x : ℕ) → length (memory h n x) ≡ n
length-memory little n x = length-le_bytes n x
length-memory big n x = length-reverse (le_bytes n x) ∙ length-le_bytes n x

le_bytes-AllBytes : (n x : ℕ) → AllBytes (le_bytes n x)
le_bytes-AllBytes zero x = tt
le_bytes-AllBytes (suc n) x = (omega arith, le_bytes-AllBytes n (x / 256))

AllBytes-append : (xs ys : List ℕ) → AllBytes xs → AllBytes ys → AllBytes (xs ++ ys)
AllBytes-append [] ys h k = k
AllBytes-append (x ∷ xs) ys h k = (h.0, AllBytes-append xs ys h.1 k)

reverse-AllBytes : (xs : List ℕ) → AllBytes xs → AllBytes (reverse xs)
reverse-AllBytes [] h = tt
reverse-AllBytes (x ∷ xs) h =
    rw (reverse-cons x xs)
      (AllBytes-append (reverse xs) (x ∷ []) (reverse-AllBytes xs h.1) (h.0, tt))

le_bytes-of_le : (bs : List ℕ) → AllBytes bs → le_bytes (length bs) (of_le bs) ≡ bs
le_bytes-of_le [] h = refl
le_bytes-of_le (b ∷ bs) h =
    let low : (b + 256 * of_le bs) % 256 ≡ b = (let p = h.0 in omega arith) in
    let rest : (b + 256 * of_le bs) / 256 ≡ of_le bs = (let p = h.0 in omega arith) in
    ap₂ ◌∷◌ low (ap (le_bytes (length bs)) rest ∙ le_bytes-of_le bs h.1)

of_le-le_bytes : (n x : ℕ) → x < 256 ^ n → of_le (le_bytes n x) ≡ x
of_le-le_bytes zero x h = omega arith
of_le-le_bytes (suc n) x h =
    omega (arith, of_le-le_bytes n (x / 256) (omega (arith, pow-suc 256 n)))

stored : (n : ℕ) (bs : List ℕ) → length bs ≡ n → AllBytes bs → le_bytes n (of_le bs) ≡ bs
stored n bs e h = rw (← e) (le_bytes-of_le bs h)

-- What the host stores it reads back.
pub of_memory-memory : (h : Host) (n x : ℕ) → x < 256 ^ n → of_memory h (memory h n x) ≡ x
of_memory-memory little n x h = of_le-le_bytes n x h
of_memory-memory big n x h = ap of_le (reverse-reverse (le_bytes n x)) ∙ of_le-le_bytes n x h

-- What `htons` or `htonl` returned is stored highest byte first, on either host.
pub memory-host_to_network :
    (h : Host) (n x : ℕ) → memory h n (host_to_network h n x) ≡ be_bytes n x
memory-host_to_network little n x =
    stored n (be_bytes n x) (length-memory big n x)
      (reverse-AllBytes (le_bytes n x) (le_bytes-AllBytes n x))
memory-host_to_network big n x =
    ap (λ l. reverse (le_bytes n (of_le l))) (reverse-reverse (le_bytes n x))
    ∙ ap reverse (stored n (le_bytes n x) (length-le_bytes n x) (le_bytes-AllBytes n x))

-- `ntohs` or `ntohl` of bytes in network order is the number, on either host.
pub host_to_network-be_bytes :
    (h : Host) (n x : ℕ) → x < 256 ^ n → host_to_network h n (of_memory h (be_bytes n x)) ≡ x
host_to_network-be_bytes little n x h =
    ap (λ l. of_le (reverse l)) (memory-host_to_network little n x)
    ∙ ap of_le (reverse-reverse (le_bytes n x))
    ∙ of_le-le_bytes n x h
host_to_network-be_bytes big n x h =
    ap (λ y. of_be (be_bytes n y)) (of_memory-memory big n x h) ∙ of_memory-memory big n x h
