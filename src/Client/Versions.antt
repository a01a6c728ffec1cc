-- ===== src/Client/Versions.antt =====
-- version.go: the methods that the client uses, and id.go.
use go_stomp.Base.{ℕ, ◌+◌, ◌%◌, ◌^◌, Bytes, Bool, true, false, none, some, ok, err}
use go_stomp.Client.Errors.{Attempt, unsupported_version}
use go_stomp.Server.Negotiation.{Version, v10, v11, v12, version_of}
use go_stomp.Std.Strconv.{format_uint}

-- `CheckSupported`, which gives the version that the string is where the source gives nil.
unfoldable pub check_supported : Bytes → Attempt Version
unfolding version_of
check_supported s = elim (version_of s) [ some v ↦ ok v | none ↦ err unsupported_version ]

unfoldable pub supports_nack : Version → Bool
supports_nack v10 = false
supports_nack v11 = true
supports_nack v12 = true

-- `allocateId`: the id, and the new value of `_lastId`, a uint64.
unfoldable pub allocate_id : ℕ → Bytes × ℕ
allocate_id last = let id = (last + 1) % 2 ^ 64 in (format_uint id, id)
