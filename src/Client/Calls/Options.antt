-- ===== src/Client/Calls/Options.antt =====
-- send_options.go and subscribe_options.go: the options that the package gives.
use go_stomp.Base.{Bytes, ok, err}
use go_stomp.Client.Calls.{FrameOption}
use go_stomp.Client.Errors.{invalid_command}
use go_stomp.Client.Versions.{allocate_id}
use go_stomp.Frame.Command.{Command}
use go_stomp.Frame.Header
use go_stomp.Frame.Names

-- `SendOpt`.
unfoldable pub receipt : FrameOption
unfolding allocate_id Header.set
receipt last f = elim f.command [
  | Command.send ↦
      let (id, last') = allocate_id last in
      (last', ok (record f { header = Header.set f.header Names.receipt id }))
  | other ↦ (last, err invalid_command)
]

unfoldable pub no_content_length : FrameOption
unfolding Header.del
no_content_length last f = elim f.command [
  | Command.send ↦ (last, ok (record f { header = Header.del f.header Names.content_length }))
  | other ↦ (last, err invalid_command)
]

unfoldable pub send_header : Bytes → Bytes → FrameOption
unfolding Header.add
send_header key value last f = elim f.command [
  | Command.send ↦ (last, ok (record f { header = Header.add f.header key value }))
  | other ↦ (last, err invalid_command)
]

-- `SubscribeOpt`.
unfoldable pub subscribe_id : Bytes → FrameOption
unfolding Header.set
subscribe_id id last f = elim f.command [
  | Command.subscribe ↦ (last, ok (record f { header = Header.set f.header Names.id id }))
  | other ↦ (last, err invalid_command)
]

unfoldable pub subscribe_header : Bytes → Bytes → FrameOption
unfolding Header.add
subscribe_header key value last f = elim f.command [
  | Command.subscribe ↦ (last, ok (record f { header = Header.add f.header key value }))
  | Command.unsubscribe ↦ (last, ok (record f { header = Header.add f.header key value }))
  | other ↦ (last, err invalid_command)
]
