-- ===== src/Wire.antt =====
-- The messages of totem.proto as the Go types of totem.pb.go and extensions.pb.go, and their
-- getters. A pointer is an `Option`; a nil byte slice and an empty one are both `[]`. `Status`
-- is the message google.rpc.Status without its details, which no code of totem reads; the
-- descriptor types have the fields that totem reads. An int32 is its bit pattern, below `int32_mod`.
use totem.Base.{ℕ, Bool, Option, none, some, List, [], ◌^◌, Text, Bytes}
use totem.Base.Table.{Table}

pub record Status : Type 0 where
  pub code : ℕ
  pub message : Text

pub record MdValues : Type 0 where
  pub items : List Text

pub record Md : Type 0 where
  pub entries : Table Text MdValues

pub record Response : Type 0 where
  pub response : Bytes
  pub status_proto : Option Status

-- Headers are apart from the metadata of the `Rpc`, which carries trailers in a stream.
pub record ServerStreamMessage : Type 0 where
  pub headers : Option Md
  pub response : Bytes

pub data Content : Type 0 where
  request : Bytes → Content
  response : Option Response → Content
  server_stream_msg : Option ServerStreamMessage → Content

pub record Rpc : Type 0 where
  pub tag : ℕ
  pub service_name : Text
  pub method_name : Text
  pub content : Option Content
  pub metadata : Option Md

pub record DiscoveryRequest : Type 0 where
  pub initiator : Text
  pub visited : List Text
  pub remaining_hops : ℕ

-- A protobuf enum is open: a peer may send a number that has no name here.
pub data ReplicationStrategy : Type 0 where
  first broadcast : ReplicationStrategy
  unknown : ℕ → ReplicationStrategy

pub record Qos : Type 0 where
  pub replication_strategy : ReplicationStrategy

pub record Visibility : Type 0 where
  pub spliced_clients : Bool

pub record MethodDescriptor : Type 0 where
  pub name : Text
  pub client_streaming : Bool
  pub server_streaming : Bool
  pub output_type : Text
  pub qos : Option Qos

pub record ServiceDescriptor : Type 0 where
  pub name : Text
  pub methods : List MethodDescriptor
  pub visibility : Option Visibility

pub record ServiceInfo : Type 0 where
  pub services : List ServiceDescriptor

abbrev pub int32_mod : ℕ
int32_mod = 2 ^ 32

-- The getters take a pointer that may be nil.
abbrev pub get_tag : Option Rpc → ℕ
get_tag none = 0
get_tag (some x) = x.tag

abbrev pub get_service_name : Option Rpc → Text
get_service_name none = []
get_service_name (some x) = x.service_name

abbrev pub get_method_name : Option Rpc → Text
get_method_name none = []
get_method_name (some x) = x.method_name

abbrev pub get_content : Option Rpc → Option Content
get_content none = none
get_content (some x) = x.content

abbrev pub request_of : Option Content → Bytes
request_of (some (Content.request r)) = r
request_of _ = []

abbrev pub get_request : Option Rpc → Bytes
get_request x = request_of (get_content x)

abbrev pub response_of : Option Content → Option Response
response_of (some (Content.response r)) = r
response_of _ = none

abbrev pub get_response : Option Rpc → Option Response
get_response x = response_of (get_content x)

abbrev pub stream_msg_of : Option Content → Option ServerStreamMessage
stream_msg_of (some (server_stream_msg m)) = m
stream_msg_of _ = none

abbrev pub get_server_stream_msg : Option Rpc → Option ServerStreamMessage
get_server_stream_msg x = stream_msg_of (get_content x)

abbrev pub get_metadata : Option Rpc → Option Md
get_metadata none = none
get_metadata (some x) = x.metadata

abbrev pub get_data : Option Md → Table Text MdValues
get_data none = []
get_data (some x) = x.entries

abbrev pub get_bytes : Option Response → Bytes
get_bytes none = []
get_bytes (some x) = x.response

abbrev pub get_headers : Option ServerStreamMessage → Option Md
get_headers none = none
get_headers (some x) = x.headers

abbrev pub get_stream_bytes : Option ServerStreamMessage → Bytes
get_stream_bytes none = []
get_stream_bytes (some x) = x.response

abbrev pub get_services : Option ServiceInfo → List ServiceDescriptor
get_services none = []
get_services (some x) = x.services
