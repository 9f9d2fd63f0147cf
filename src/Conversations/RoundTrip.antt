-- ===== src/Conversations/RoundTrip.antt =====
-- Sender and reader of mt-core/conversations/src/cpp together: what one puts on a connection, read at
-- the other end.
use oef_mt_core.Base.{ℕ, ◌+◌, ◌<◌, ◌^◌, List, [], ◌∷◌}
use oef_mt_core.BasicComms.Memory.{Memory}
use oef_mt_core.Comms.ProtoMessageSender.Frames.{IsProtobuf, Appends}
use oef_mt_core.Conversations.Transport.{TransportHeader}
use oef_mt_core.Conversations.ProtoPathMessageReader.Frames.{Notice, completed}
use oef_mt_core.Conversations.ProtoPathMessageSender.{Uri, leader_of}

module _ {Message : Type 0} (leader_bytes : TransportHeader → ℕ)
    (serialize_leader : TransportHeader → List ℕ) (byte_size : Message → ℕ)
    (serialize : Message → List ℕ) (leaders : IsProtobuf leader_bytes serialize_leader)
    (protobuf : IsProtobuf byte_size serialize)
    (small : (uri : Uri) (msg : Message)
      → leader_bytes (leader_of uri) + byte_size msg + 8 < 2 ^ 32)
    (wake : List (Uri × Message) → List (Uri × Message)) (appends : Appends wake) where
  -- What the receiver is told of a message: the port of its Uri, and its bytes.
  abbrev pub told : Uri × Message → Notice
  told (uri, msg) = completed uri.port (serialize msg)

  abbrev pub on_connection : List (Uri × Message) → List (TransportHeader × List ℕ)
  on_connection [] = []
  on_connection ((uri, msg) ∷ rest) = (leader_of uri, serialize msg) ∷ on_connection rest
