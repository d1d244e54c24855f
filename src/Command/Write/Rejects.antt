-- ===== src/Command/Write/Rejects.antt =====
-- The answer to a line that is no command, from the write to the read buffer.
use acq200_firmware.Prelude.{
  ℕ, zero, suc, ◌+◌, ◌<◌, ◌≤◌, ◌≡◌, refl, ap, ◌∙◌, List, [], ◌∷◌, ◌++◌, map, length, length-append,
  take, arith,
}
use acq200_firmware.Command.Text.{Str, text}
use acq200_firmware.Command.Types.{Acq32Path, MasterDriver, Decoder, str, reply}
use acq200_firmware.Command.Args.{maxargs, getargs}
use acq200_firmware.Command.Args.Progress.{getargs-nil}
use acq200_firmware.Command.Args.Lines.{Word, content, render_all, AllWords}
use acq200_firmware.Command.Args.Separators.{eol, getargs-render_all}
use acq200_firmware.Command.Write.{
  run_decoders, taken, written, write_from, write_command, master_decoders, acq32_master_write,
}
use acq200_firmware.Command.Write.Total.{ack, write_ends, write_goes_on}
use acq200_firmware.Command.Write.Skips.{Unknown}
use acq200_firmware.Command.Write.Unknown.{entries, rejected, run_master}

take_all : (n : ℕ) (s : Str) → length s ≤ n → take n s ≡ s
take_all zero [] h = refl
take_all zero (c ∷ s) h = absurd (omega arith)
take_all (suc n) [] h = refl
take_all (suc n) (c ∷ s) h = ap (λ t. c ∷ t) (take_all n s (omega arith))

two_more : (n : ℕ) → 2 ≤ n → (m : ℕ) × (n ≡ suc (suc m))
two_more zero h = absurd (omega arith)
two_more (suc zero) h = absurd (omega arith)
two_more (suc (suc m)) h = (m, refl)

-- A write that holds one line, given what getargs and the decoders make of it
one_line :
    (fuel : ℕ) (decoders : List Decoder) (buf verb : Str) (args : List Str) (p q : Acq32Path)
    → 2 ≤ fuel
    → (getargs buf).argv ≡ verb ∷ args
    → (getargs buf).next ≡ []
    → run_decoders decoders (verb ∷ args) 0 (ack p) ≡ taken q
    → (n : ℕ) × (write_from fuel decoders buf 0 p ≡ written n (reply (str (text "\n") ∷ []) q))
one_line fuel decoders buf verb args p q h found done run =
    let (m, e) = two_more fuel h in
    let answered = reply (str (text "\n") ∷ []) q in
    let offset = 0 + (getargs buf).moved in
    (
      offset + (getargs []).moved,
      ap (λ f. write_from f decoders buf 0 p) e
          ∙ write_goes_on (suc m) decoders buf 0 p verb args q found
              (ap (λ argv. run_decoders decoders argv 0 (ack p)) found ∙ run)
          ∙ ap (λ next. write_from (suc m) decoders next offset answered) done
          ∙ write_ends m decoders [] offset answered getargs-nil,
    )

-- A line of one to nine words with its newline, of 255 characters at most, whose first word no
-- decoder of the master device knows, is answered by "ACQ32:" and the words behind "ERROR in
-- command:", and a newline: the driver is not called, and nothing else of the path changes but the
-- mark that says that the answer was 80 characters or longer and has left its buffer.
pub acq32_master_write-rejected :
    (drvr : MasterDriver) (w : Word) (ws : List Word) (p : Acq32Path)
    → AllWords (w ∷ ws)
    → length (w ∷ ws) < maxargs
    → length (render_all (w ∷ ws)) < 255
    → Unknown (content w) (entries drvr)
    → (n : ℕ) × (acq32_master_write drvr (render_all (w ∷ ws) ++ 10 ∷ []) p
        ≡ written n (
            reply
              (str (text "\n") ∷ [])
              (rejected (map content (w ∷ ws)) (reply (str (text "ACQ32:") ∷ []) p))))
unfolding acq32_master_write write_command
acq32_master_write-rejected drvr w ws p all few short unknown =
    let line = render_all (w ∷ ws) ++ 10 ∷ [] in
    let size = length-append (render_all (w ∷ ws)) (10 ∷ []) in
    let whole : take 255 line ≡ line = take_all 255 line (omega (arith, size, short)) in
    let (found, done) = getargs-render_all eol w ws [] all few refl in
    let (n, e) =
      one_line (length line + 1) (master_decoders drvr) line (content w) (map content ws) p
        (rejected (map content (w ∷ ws)) (ack p)) (omega (arith, size)) found done
        (run_master drvr (content w) (map content ws) (ack p) unknown) in
    (n, ap (λ kbuf. write_from (length kbuf + 1) (master_decoders drvr) kbuf 0 p) whole ∙ e)
