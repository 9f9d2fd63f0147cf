-- ===== src/Comms/Endianness.antt =====
-- mt-core/comms/src/cpp/Endianness.hpp, and the framing that reader and sender agree on.
use oef_mt_core.Base.{ℕ, List, [], ◌∷◌, ◌++◌, length, byte0, byte1, byte2, byte3}

pub data Endianness : Type 0 where
  dunno little network bad : Endianness

-- The orders in which a connection can talk.
pub data ByteOrder : Type 0 where
  little_endian network_endian : ByteOrder

abbrev pub settled : ByteOrder → Endianness
settled little_endian = little
settled network_endian = network

abbrev pub header : ByteOrder → ℕ → List ℕ
header little_endian n = byte0 n ∷ byte1 n ∷ byte2 n ∷ byte3 n ∷ []
header network_endian n = byte3 n ∷ byte2 n ∷ byte1 n ∷ byte0 n ∷ []

-- A message on the wire: its length, then its bytes.
abbrev pub frame : ByteOrder → List ℕ → List ℕ
frame o payload = header o (length payload) ++ payload

abbrev pub frames : ByteOrder → List (List ℕ) → List ℕ
frames o [] = []
frames o (p ∷ ps) = frame o p ++ frames o ps
