-- ===== src/Command/Routes.antt =====
-- The decoders of acq32_command.c for the routes of the synchronisation lines, the channels that
-- there are, and their ranges.
use acq200_firmware.Prelude.{
  ℕ, ◌+◌, ◌^◌, ◌%◌, Bool, false, ◌||◌, Option, none, some, List, [], ◌∷◌, length, drop, set, get_or,
  bit_or, ltb, if◌then◌else◌,
}
use acq200_firmware.Prelude.Int.{ℤ, pos, is_negative, ◌/ℤ◌, pos_part, neg_part}
use acq200_firmware.Busprot.{has}
use acq200_firmware.Command.Text.{Str, text, str_eq}
use acq200_firmware.Command.Types.{
  Acq32Device, Acq32Path, MasterDriver, Decoder, Piece, str, dec, Method, arg, reply, report,
  help_or,
}
use acq200_firmware.Command.Tables.{Route, sync_route_lut, or_text}
use acq200_firmware.Command.Capture.{verb_is}

abbrev names : Option Str → Str → Bool
names none token = false
names (some dest) token = str_eq token dest

-- The bits of the destinations that a word names, from the bit `idest` on
pub dest_bits : Str → List (Option Str) → ℕ → ℕ
dest_bits token [] idest = 0
dest_bits token (dest ∷ dests) idest =
    let later = dest_bits token dests (idest + 1) in
    if names dest token then bit_or (2 ^ idest) later else later

pub is_dest : Str → List (Option Str) → Bool
is_dest token [] = false
is_dest token (dest ∷ dests) = names dest token || is_dest token dests

-- The words from `iarg` on: the mask, or the index of one that is no destination.
pub data Dests : Type 0 where
  bad_dest good_dests : ℕ → Dests

pub dest_mask_from : List (Option Str) → List Str → ℕ → ℕ → Dests
dest_mask_from dests [] iarg mask = good_dests mask
dest_mask_from dests (token ∷ tokens) iarg mask =
    let rest = dest_mask_from dests tokens (iarg + 1) (bit_or mask (dest_bits token dests 0)) in
    if is_dest token dests then rest else bad_dest iarg

-- The first function of the table with a name, and its index
pub find_route : Str → List Route → ℕ → Option (ℕ × Route)
find_route func [] funkey = none
find_route func (route ∷ routes) funkey =
    let later = find_route func routes (funkey + 1) in
    if str_eq func route.func1 || str_eq func route.func_alt then some (funkey, route) else later

module _ (drvr : MasterDriver) where
  abbrev with_dests : List Str → ℕ → Acq32Path → Dests → ℕ × Acq32Path
  with_dests argv funkey p (bad_dest iarg) = (
    iarg,
    reply (str (text "ERROR:Incorrect dest arg ") ∷ str (arg argv iarg) ∷ str (text "\n") ∷ []) p,
  )
  with_dests argv funkey p (good_dests mask) =
      let device = record p.device { sync_dest_masks = set p.device.sync_dest_masks funkey mask } in
      (
        length argv,
        report (text "ERROR:SetSyncRoute() failed: ")
            (drvr.call (Method.set_sync_route funkey mask) (record p { device = device })),
      )

  unfoldable pub do_set_sync_route : Decoder
  do_set_sync_route argv iarg p =
      help_or (text "setSyncRoute DIx [dest1 .. dest2..]") (text "") argv iarg p (
        if verb_is argv iarg (text "setSyncRoute")
        then (if ltb (iarg + 1) (length argv)
            then elim (find_route (arg argv (iarg + 1)) sync_route_lut 0) [
              | none ↦ (
                iarg + 1,
                reply
                    (str (text "ERROR:Incorrect function arg ")
                      ∷ str (arg argv (iarg + 1))
                      ∷ str (text "\n")
                      ∷ [])
                    p,
              )
              | some (funkey, route) ↦
                  with_dests argv funkey p
                    (dest_mask_from route.dest (drop (iarg + 2) argv) (iarg + 2) 0)
            ]
            else (iarg + 1, reply (str (text "ERROR:No function arg\n") ∷ []) p))
        else (iarg, p))

  -- DESTR; a name that is missing prints as (null).
  abbrev destr : ℕ → List (Option Str) → ℕ → Str
  destr mask dests ibit =
      if has mask (2 ^ ibit) then or_text (text "(null)") (get_or dests ibit none) else []

  pub routes_from : List Route → ℕ → Acq32Device → List Piece
  routes_from [] funkey device = []
  routes_from (route ∷ routes) funkey device =
      let name =
        λ (ibit : ℕ). str (destr (get_or device.sync_dest_masks funkey 0) route.dest ibit) in
      str (text "DI")
      ∷ dec (pos funkey)
      ∷ str (text ": ")
      ∷ name 0
      ∷ str (text ", ")
      ∷ name 1
      ∷ str (text ", ")
      ∷ name 2
      ∷ str (text ", ")
      ∷ name 3
      ∷ str (text ", ")
      ∷ name 4
      ∷ str (text "\n")
      ∷ routes_from routes (funkey + 1) device

  unfoldable pub do_get_sync_route : Decoder
  do_get_sync_route argv iarg p = help_or (text "getSyncRoute") (text "") argv iarg p (
      if verb_is argv iarg (text "getSyncRoute")
      then (iarg + 1, reply (str (text "0\n") ∷ routes_from sync_route_lut 0 p.device) p)
      else (iarg, p))

  abbrev got_channels : ℤ × Acq32Path → Acq32Path
  got_channels (ierrno, p) =
      if is_negative ierrno
      then reply
          (str (text "ERROR:getAvailableChannels failed ") ∷ dec ierrno ∷ str (text "\n") ∷ []) p
      else reply
          (str (text "getAvailableChannels AI=")
            ∷ dec p.device.input_channels.nchannels
            ∷ str (text " AO=")
            ∷ dec p.device.output_channels.nchannels
            ∷ [])
          p

  unfoldable pub do_get_available_channels : Decoder
  do_get_available_channels argv iarg p =
      help_or (text "getAvailableChannels") (text "") argv iarg p (
        if verb_is argv iarg (text "getAvailableChannels")
        then (iarg + 1, got_channels (drvr.call Method.get_available_channels p))
        else (iarg, p))

  -- A voltage in tenths: %d.%dV of v/10 and ABS(v%10)
  abbrev volts10 : ℤ → List Piece → List Piece
  volts10 v rest =
      dec (v /ℤ pos 10)
      ∷ str (text ".")
      ∷ dec (pos ((pos_part v + neg_part v) % 10))
      ∷ str (text "V")
      ∷ rest

  abbrev got_range : ℤ × Acq32Path → Acq32Path
  got_range (ierrno, p) =
      if is_negative ierrno
      then reply (str (text "ERROR:getVoltsRange failed ") ∷ dec ierrno ∷ str (text "\n") ∷ []) p
      else (let input = p.device.input_channels in
          let output = p.device.output_channels in
          reply
            (str (text "getVoltsRange AI=")
              ∷ volts10 input.vmin10 (
                  str (text ",")
                  ∷ volts10 input.vmax10 (
                      str (text " AO=")
                      ∷ volts10 output.vmin10 (str (text ",") ∷ volts10 output.vmax10 []))))
            p)

  unfoldable pub do_get_range : Decoder
  do_get_range argv iarg p = help_or (text "getVoltsRange") (text "") argv iarg p (
      if verb_is argv iarg (text "getVoltsRange")
      then (iarg + 1, got_range (drvr.call Method.get_range p))
      else (iarg, p))
