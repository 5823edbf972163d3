-- ===== src/Raft/Storage/Codec.antt =====
-- `encodeGob` and `decodeGob` of raft/persist.go for a `PersistentState`: encoding/gob is a
-- parameter.
use fraud_scoring_platform.Raft.Types.{PersistentState, nobody}
use fraud_scoring_platform.Prelude.{ℕ, List, [], Option, some, ◌≡◌}

abbrev pub Bytes : Type 0
Bytes = List ℕ

-- none is an error.
pub record Codec : Type 0 where
  pub encode_gob : PersistentState → Option Bytes
  pub decode_gob : Bytes → Option PersistentState

-- What has been encoded can be decoded.
pub record IsCodec (c : Codec) : Type 0 where
  pub decode-encode :
      (p : PersistentState) (b : Bytes) → c.encode_gob p ≡ some b → c.decode_gob b ≡ some p

-- `var state PersistentState`
abbrev pub zero_state : PersistentState
zero_state = record { current_term = 0; voted_for = nobody; entries = [] }
