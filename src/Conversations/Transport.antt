-- ===== src/Conversations/Transport.antt =====
-- protos/src/protos/transport.proto: the leader of each message, and the framing that
-- mt-core/conversations/src/cpp/ProtoPathMessageReader.cpp and ProtoPathMessageSender.cpp agree on.
use oef_mt_core.Base.{ℕ, ◌+◌, ◌≤◌, Bool, List, [], ◌∷◌, ◌++◌, Option, some, ◌≡◌, length}
use oef_mt_core.Base.Int.{ℤ}
use oef_mt_core.Karma.BucketsOf.{Name}
use oef_mt_core.Comms.Endianness.{network_endian, header}

pub record TransportHeader : Type 0 where
  pub uri : Name
  pub id : ℕ
  -- the fields of the status
  pub success : Bool
  pub error_code : ℤ
  pub narrative : List Name

-- Two lengths, then the leader and the payload.
abbrev pub path_frame : List ℕ → List ℕ → List ℕ
path_frame leader payload =
    header network_endian (length leader)
    ++ (header network_endian (length payload) ++ (leader ++ payload))

module _ (serialize : TransportHeader → List ℕ) where
  abbrev pub path_frames : List (TransportHeader × List ℕ) → List ℕ
  path_frames [] = []
  path_frames ((leader, payload) ∷ ps) = path_frame (serialize leader) payload ++ path_frames ps

  -- No message of the code is longer.
  abbrev pub AllFit : List (TransportHeader × List ℕ) → Type 0
  AllFit [] = Unit
  AllFit ((leader, payload) ∷ ps) = (length (serialize leader) + length payload ≤ 10000) × AllFit ps

  -- Protobuf parses each leader from the bytes that it wrote.
  abbrev pub AllParse : (List ℕ → Option TransportHeader) → List (TransportHeader × List ℕ) → Type 0
  AllParse parse [] = Unit
  AllParse parse ((leader, payload) ∷ ps) =
      (parse (serialize leader) ≡ some leader) × AllParse parse ps
