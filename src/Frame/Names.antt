-- ===== src/Frame/Names.antt =====
-- frame/header.go: the header names, and frame/ack.go: the values of "ack".
use go_stomp.Base.{Bytes, codes}

abbrev pub content_length : Bytes
content_length = codes "content-length"

abbrev pub receipt : Bytes
receipt = codes "receipt"

abbrev pub accept_version : Bytes
accept_version = codes "accept-version"

abbrev pub version : Bytes
version = codes "version"

abbrev pub login : Bytes
login = codes "login"

abbrev pub passcode : Bytes
passcode = codes "passcode"

abbrev pub heart_beat : Bytes
heart_beat = codes "heart-beat"

abbrev pub server : Bytes
server = codes "server"

abbrev pub destination : Bytes
destination = codes "destination"

abbrev pub id : Bytes
id = codes "id"

abbrev pub ack : Bytes
ack = codes "ack"

abbrev pub transaction : Bytes
transaction = codes "transaction"

abbrev pub receipt_id : Bytes
receipt_id = codes "receipt-id"

abbrev pub subscription : Bytes
subscription = codes "subscription"

abbrev pub message_id : Bytes
message_id = codes "message-id"

abbrev pub message : Bytes
message = codes "message"

abbrev pub ack_auto : Bytes
ack_auto = codes "auto"

abbrev pub ack_client : Bytes
ack_client = codes "client"

abbrev pub ack_client_individual : Bytes
ack_client_individual = codes "client-individual"

abbrev pub host : Bytes
host = codes "host"

abbrev pub session : Bytes
session = codes "session"

abbrev pub content_type : Bytes
content_type = codes "content-type"

-- conn.go: `ReplyToHeader`.
abbrev pub reply_to : Bytes
reply_to = codes "reply-to"
