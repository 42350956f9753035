-- ===== src/Common/IdGenerator.antt =====
-- modules/common: IdGenerator.cpp. The generator's random bytes are an argument: 16 of them.
pub mod Version
use edge_tts_cpp.Base.{
  ℕ, zero, suc, ◌+◌, ◌%◌, [], ◌∷◌, ◌++◌, Bytes, ◌==◌, if◌then◌else◌, take, drop,
}
use edge_tts_cpp.Common.Hex.{hex_encode_lower}

-- A change of the byte at a position.
unfoldable pub update_at : ℕ → (ℕ → ℕ) → Bytes → Bytes
update_at i f [] = []
update_at zero f (b ∷ bs) = f b ∷ bs
update_at (suc i) f (b ∷ bs) = b ∷ update_at i f bs

-- `b[6] = (b[6] & 0x0f) | 0x40` and `b[8] = (b[8] & 0x3f) | 0x80`.
unfoldable pub set_version : Bytes → Bytes
unfolding update_at
set_version b = update_at 8 (λ x. x % 64 + 0x80) (update_at 6 (λ x. x % 16 + 0x40) b)

-- The five groups of 4, 2, 2, 2 and 6 bytes.
unfoldable pub format_groups : Bytes → Bytes
unfolding hex_encode_lower
format_groups b =
    hex_encode_lower (take 4 b)
    ++ (b'-'
        ∷ (hex_encode_lower (take 2 (drop 4 b))
            ++ (b'-'
                ∷ (hex_encode_lower (take 2 (drop 6 b))
                    ++ (b'-'
                        ∷ (hex_encode_lower (take 2 (drop 8 b))
                            ++ (b'-' ∷ hex_encode_lower (take 6 (drop 10 b)))))))))

unfoldable pub uuid_v4 : Bytes → Bytes
unfolding set_version format_groups
uuid_v4 random = format_groups (set_version random)

unfoldable pub strip_hyphens : Bytes → Bytes
strip_hyphens [] = []
strip_hyphens (c ∷ s) = if c == b'-' then strip_hyphens s else c ∷ strip_hyphens s

unfoldable pub uuid_v4_without_hyphens : Bytes → Bytes
unfolding uuid_v4 strip_hyphens
uuid_v4_without_hyphens random = strip_hyphens (uuid_v4 random)

unfoldable pub random_32_hex : Bytes → Bytes
unfolding hex_encode_lower
random_32_hex random = hex_encode_lower random
