-- ===== src/Core/Write.antt =====
-- `Core::write16` and `Core::write32` of src/Core/Core.cpp.
use edge_dns.Prelude.{ℕ, List, ◌++◌}
use edge_dns.Core.Answer.{be16}
use edge_dns.Wire.Codec.{to_be32}

unfoldable pub write16 : List ℕ → ℕ → List ℕ
unfolding be16
write16 buf value = buf ++ be16 value

unfoldable pub write32 : List ℕ → ℕ → List ℕ
unfolding to_be32
write32 buf value = buf ++ to_be32 value
