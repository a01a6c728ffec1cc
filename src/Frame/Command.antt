-- ===== src/Frame/Command.antt =====
-- frame/command.go: the commands, and frame/header.go: the header names.
use go_stomp.Base.{
  Bytes, codes, str_eq, if◌then◌else◌, Option, none, some, List, [], ◌∷◌, ◌≡◌, refl,
}

-- `Command` is a string in the source. A frame's command is one of these fifteen: the reader
-- refuses any other, and the packages build frames with these constants only.
pub data Command : Type 0 where
  connect stomp connected send subscribe unsubscribe ack nack : Command
  begin commit abort disconnect message receipt error : Command

-- The string of each constant.
unfoldable pub command_name : Command → Bytes
command_name connect = codes "CONNECT"
command_name stomp = codes "STOMP"
command_name connected = codes "CONNECTED"
command_name send = codes "SEND"
command_name subscribe = codes "SUBSCRIBE"
command_name unsubscribe = codes "UNSUBSCRIBE"
command_name ack = codes "ACK"
command_name nack = codes "NACK"
command_name begin = codes "BEGIN"
command_name commit = codes "COMMIT"
command_name abort = codes "ABORT"
command_name disconnect = codes "DISCONNECT"
command_name message = codes "MESSAGE"
command_name receipt = codes "RECEIPT"
command_name error = codes "ERROR"

abbrev commands : List Command
commands =
    connect ∷ stomp ∷ send ∷ subscribe ∷ unsubscribe ∷ ack ∷ nack ∷ begin ∷ commit ∷ abort
    ∷ disconnect ∷ connected ∷ message ∷ receipt ∷ error ∷ []

find_command : Bytes → List Command → Option Command
find_command s [] = none
find_command s (c ∷ cs) = if str_eq s (command_name c) then some c else find_command s cs

-- The `switch f.Command` of `Reader.Read`: the command that a string names, if it names one.
unfoldable pub parse_command : Bytes → Option Command
unfolding find_command
parse_command s = find_command s commands

pub parse_command-command_name : (c : Command) → parse_command (command_name c) ≡ some c
unfolding parse_command command_name str_eq
parse_command-command_name connect = refl
parse_command-command_name _ = refl
