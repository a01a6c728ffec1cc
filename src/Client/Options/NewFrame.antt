-- ===== src/Client/Options/NewFrame.antt =====
-- What a CONNECT frame of the client holds.
use go_stomp.Base.{◌≡◌, Bytes, ◌||◌, not, none, some, ◌∷◌, ◌++◌, str_eq, if◌then◌else◌, arith, ◌/◌}
use go_stomp.Client.Options.{
  ConnOptions, new_frame, host_header, heart_beat_header, login_header, is_empty,
}
use go_stomp.Frame.Header.{Header, contains, get, set}
use go_stomp.Frame.Header.Laws.{contains-set, contains-add_header}
use go_stomp.Frame.HeartBeat.{millisecond}
use go_stomp.Frame.Names
use go_stomp.Std.Strconv.{format_uint}
use go_stomp.Std.Strings.{join}

module _ (co : ConnOptions) (h : Header) (k : Bytes) where
  contains-host_header : contains (host_header co h) k ≡ (
      if is_empty co.host
      then contains h k
      else if str_eq Names.host k
      then some co.host
      else contains h k)
  unfolding host_header
  contains-host_header = ground (arith, contains-set h Names.host co.host k)

  contains-heart_beat_header : contains (heart_beat_header co h) k ≡ (
      if str_eq Names.heart_beat k
      then some (
          format_uint (co.write_timeout / millisecond)
          ++ (b',' ∷ format_uint (co.read_timeout / millisecond)))
      else contains h k)
  unfolding heart_beat_header
  contains-heart_beat_header = contains-set h Names.heart_beat _ k

  contains-login_header : contains (login_header co h) k ≡ (
      if not (is_empty co.login) || not (is_empty co.passcode)
      then if str_eq Names.passcode k
        then some co.passcode
        else if str_eq Names.login k
        then some co.login
        else contains h k
      else contains h k)
  unfolding login_header
  contains-login_header = ground (
    arith,
    contains-set (set h Names.login co.login) Names.passcode co.passcode k,
    contains-set h Names.login co.login k,
  )

module _ (co : ConnOptions) where
  pub new_frame-receipt :
      contains co.header Names.receipt ≡ none → contains (new_frame co).header Names.receipt ≡ none
  unfolding new_frame str_eq contains
  new_frame-receipt e =
      simp
        (
          contains-add_header, contains-set, contains-login_header, contains-heart_beat_header,
          contains-host_header,
        )
        (ground (arith, e))

  pub new_frame-heart_beat :
      contains (new_frame co).header Names.heart_beat
      ≡ some (
          format_uint (co.write_timeout / millisecond)
          ++ (b',' ∷ format_uint (co.read_timeout / millisecond)))
  unfolding new_frame str_eq
  new_frame-heart_beat =
      simp (contains-add_header, contains-set, contains-login_header, contains-heart_beat_header)
        (ground arith)

  pub new_frame-accept_version :
      contains (new_frame co).header Names.accept_version ≡ some (join b',' co.accept_versions)
  unfolding new_frame str_eq
  new_frame-accept_version = simp (contains-add_header, contains-set)

  contains-new_frame-login :
      contains co.header Names.login ≡ none
      → contains (new_frame co).header Names.login
        ≡ (if not (is_empty co.login) || not (is_empty co.passcode) then some co.login else none)
  unfolding new_frame str_eq contains
  contains-new_frame-login e =
      simp
        (
          contains-add_header, contains-set, contains-login_header, contains-heart_beat_header,
          contains-host_header,
        )
        (ground (arith, e))

  contains-new_frame-passcode :
      contains co.header Names.passcode ≡ none
      → contains (new_frame co).header Names.passcode
        ≡ (if not (is_empty co.login) || not (is_empty co.passcode) then some co.passcode else none)
  unfolding new_frame str_eq contains
  contains-new_frame-passcode e =
      simp
        (
          contains-add_header, contains-set, contains-login_header, contains-heart_beat_header,
          contains-host_header,
        )
        (ground (arith, e))

  -- The two entries are there together or not at all, and an absent one reads as empty.
  pub new_frame-login :
      contains co.header Names.login ≡ none
      → contains co.header Names.passcode ≡ none
      → (get (new_frame co).header Names.login ≡ co.login)
        × (get (new_frame co).header Names.passcode ≡ co.passcode)
  unfolding get
  new_frame-login l p =
      (ground (arith, contains-new_frame-login l), ground (arith, contains-new_frame-passcode p))
