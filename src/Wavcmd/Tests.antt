-- ===== src/Wavcmd/Tests.antt =====
-- References set for a channel and for all.
use acq200_firmware.Prelude.{◌≡◌, arith, ◌==◌, if◌then◌else◌}
use acq200_firmware.Wavcmd.{do_set_ref, get_ref, all_channels}
use acq200_firmware.Wavcmd.Reference.{
  lines, selection, group_of, get_ref-do_set_ref, get_ref-do_set_ref_all,
}

get_ref_example :
    (get_ref 0xd2b1 ≡ lines (λ g. selection g 0xd2b1))
    × (get_ref (do_set_ref 6 3 0xd2b1)
        ≡ lines (λ g. if group_of 6 == g then 3 else selection g 0xd2b1))
get_ref_example = get_ref-do_set_ref 6 3 0xd2b1 (omega arith) (omega arith) (omega arith)

get_ref_all_example : get_ref (do_set_ref all_channels 2 0xd2b1) ≡ lines (λ g. 2)
get_ref_all_example = get_ref-do_set_ref_all 2 0xd2b1 (omega arith)
