-- ===== src/Messages.antt =====
-- UnrealEngineMessage.proto: the messages of the protocol. The generated code is not modelled; a
-- message is its fields, and the default of a field is 0, false, the empty text or the empty list.
use Prim.Native.String.{String}
use yuwibo_server.Prelude.{ℕ, Bool, false, List, []}
use yuwibo_server.Text.{Text}

pub data ErrorCode : Type 0 where
  no_error unknown invalid_request room_not_found user_already_exists user_name_none : ErrorCode

pub record RoomInfo : Type 0 where
  pub id : ℕ
  pub room_name : Text
  pub current_player_count : ℕ
  pub max_player_count : ℕ
  pub host_id : Text

pub record UserInfo : Type 0 where
  pub user_id : Text
  pub user_name : Text

pub record JoinRoomResponse : Type 0 where
  pub success : Bool
  pub error_code : ErrorCode
  pub room : RoomInfo
  pub users : List UserInfo
  pub my_id : Text

pub record UpdateRoomInfo : Type 0 where
  pub room : RoomInfo
  pub users : List UserInfo
  pub my_id : Text

pub data Message : Type 0 where
  ping : Message
  pong : ℕ → Message
  signin_request : Text → Text → Message
  signin_response : Bool → ErrorCode → Message
  signup_request : Text → Text → Message
  signup_response : Bool → ErrorCode → Message
  register_request : Text → Message
  register_response : Message
  create_room_request : Text → ℕ → Message
  find_room_request : Text → Message
  find_room_response : List RoomInfo → Message
  join_room_request : ℕ → Message
  join_room_response : JoinRoomResponse → Message
  leave_room_request : Text → Message
  update_room_info : UpdateRoomInfo → Message
  broadcast_request : Text → Message
  broadcast_response : UserInfo → Text → Message
  game_request : Text → Message
  game_response : Text → Message

abbrev pub no_room : RoomInfo
no_room = record {
  id = 0;
  room_name = [];
  current_player_count = 0;
  max_player_count = 0;
  host_id = [];
}

abbrev pub new_join_room_response : JoinRoomResponse
new_join_room_response = record {
  success = false;
  error_code = no_error;
  room = no_room;
  users = [];
  my_id = [];
}

-- `GetTypeName()`
unfoldable pub type_name : Message → String
type_name ping = "UnrealEngineMessage.Ping"
type_name (pong t) = "UnrealEngineMessage.Pong"
type_name (signin_request u p) = "UnrealEngineMessage.SigninRequest"
type_name (signin_response s e) = "UnrealEngineMessage.SigninResponse"
type_name (signup_request u p) = "UnrealEngineMessage.SignupRequest"
type_name (signup_response s e) = "UnrealEngineMessage.SignupResponse"
type_name (register_request n) = "UnrealEngineMessage.RegisterRequest"
type_name register_response = "UnrealEngineMessage.RegisterResponse"
type_name (create_room_request n m) = "UnrealEngineMessage.CreateRoomRequest"
type_name (find_room_request n) = "UnrealEngineMessage.FindRoomRequest"
type_name (find_room_response rs) = "UnrealEngineMessage.FindRoomResponse"
type_name (join_room_request i) = "UnrealEngineMessage.JoinRoomRequest"
type_name (join_room_response r) = "UnrealEngineMessage.JoinRoomResponse"
type_name (leave_room_request n) = "UnrealEngineMessage.LeaveRoomRequest"
type_name (update_room_info u) = "UnrealEngineMessage.UpdateRoomInfo"
type_name (broadcast_request m) = "UnrealEngineMessage.BroadcastRequest"
type_name (broadcast_response u m) = "UnrealEngineMessage.BroadcastResponse"
type_name (game_request u) = "UnrealEngineMessage.GameRequest"
type_name (game_response u) = "UnrealEngineMessage.GameResponse"
