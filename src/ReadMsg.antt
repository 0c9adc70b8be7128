-- ===== src/ReadMsg.antt =====
-- What the `readMsg` functions make of the bytes that were read (src/TcpServer.hpp and the others).
use Prim.Native.Nat.{◌≤◌}
use tcp_server_client.Prelude.{
  ℕ, ◌++◌, [], ◌∷◌, zero, suc, length, take, take-length-append, if◌then◌else◌, ◌≡◌, refl, arith,
}
use tcp_server_client.Prelude.Int.{ℤ, pos, pos_part, ltb_ℤ}
use tcp_server_client.Exec.{Bytes}

abbrev pub maximum_receive_package_size : ℕ
maximum_receive_package_size = 16384

-- `char buffer[n]{0}`
zeros : ℕ → Bytes
zeros zero = []
zeros (suc n) = 0 ∷ zeros n

-- `std::string{buffer, 0 < lenMsg ? lenMsg : 0}`, for the buffer of zeros with the bytes read.
unfoldable pub received : ℤ → Bytes → Bytes
unfolding zeros
received len text =
    let size = if ltb_ℤ (pos 0) len then pos_part len else 0 in
    take size (text ++ zeros maximum_receive_package_size)

-- If the length is that of the bytes read, these are the result.
pub received-length : (text : Bytes) → received (pos (length text)) text ≡ text
received-length [] = unfold received in refl
received-length (c ∷ cs) =
    unfold received in
    ground (arith, take-length-append (c ∷ cs) (zeros maximum_receive_package_size))

length-take : (n : ℕ) (xs : Bytes) → length (take n xs) ≤ n
length-take zero xs = omega arith
length-take (suc n) [] = omega arith
length-take (suc n) (x ∷ xs) = omega (arith, length-take n xs)

pub length-received : (len : ℤ) (text : Bytes) → length (received len text) ≤ pos_part len
unfolding received
length-received len text = ground (
  arith,
  length-take (if ltb_ℤ (pos 0) len then pos_part len else 0)
      (text ++ zeros maximum_receive_package_size),
)
