-- ===== src/Lib.antt =====
-- The mailbox protocol of the D-TACQ ACQ32, ACQ16 and ACQ200 boards, from the firmware on the board
-- to the driver on the host, with the buffers, clocks and tables around it.
--
-- All paths are under project/BASE/DTACQ/SRC of the repository. A board and its host share four
-- 32-bit mailboxes (include/acq32busprot.h). The host's driver (dt100/Linux/Drivers/acq32_core.c)
-- writes arguments and a command word and polls the command box for BP_CI_ACK. The firmware
-- (dt100/ARM/d-bug/mbox-slave.c) looks at the box in its main loop, takes the command, runs its
-- handler, answers, and keeps the state, mode, cycle and heartbeat of the board in the status word.
-- The host can also push I2O messages, which the same loop takes. Beside the protocol stand the
-- driver's ring buffers and interrupt masks (dt100/Linux/Drivers/acq32_utils.c), the host library
-- of low latency control (dt100/Linux/Apps/LOWLATENCY/llprotocol.c) and the dechannelizer of its
-- data (channelize.196.c beside it), and two small commands of the firmware: the voltage references
-- and the binary strings.
--
-- The files:
--   Prelude        library names passed on, C's tests, lists, and the laws of `&` and `|` on words
--   Busprot        include/acq32busprot.h: BP_GET_*, BP_SET_*, BP_CI_*, and the states and modes of
--                  dt100/include/dt100api.h; Fields and Masking read a word's fields
--   MboxSlave      mbox-slave.c. Types has the state and the hardware layer; Report the status word
--                  (_mbox_reportState, mbox_reportMode, mbox_reportMsecs); Handlers the handlers of
--                  all commands and queries; Process the dispatchers (processShortCommand to
--                  processMboxCommand, mbox_abort); Incoming mboxProcessI2OIncoming; Loop
--                  mboxSlaveOnce
--   Driver         acq32_core.c. Bus is the interface to a device; Send the command and query
--                  primitives; Commands and Gut the commands made of them; Protocol joins the
--                  driver to the slave of MboxSlave. Slaves is acq32_getNextSlave with the loops over
--                  it, Boards the commands for all boards (SetModeAll, SetArmAll and others, with two
--                  of acq200.c), Go acq32_GoAll and its watchdog, Single the commands for one board,
--                  Fetch acq32_FetchData and the path's buffer
--   Command        dt100/Linux/Drivers/acq32_command.c, the text commands. Text has the strings, Types
--                  the path, the device and the driver's functions; Args is getargs; Tables the
--                  keys; Capture, Dio, Settings, Gut, Threshold, Data and Routes the decoders; Write
--                  the tables of decoders and _write_command
--   ReadBuffer     readbuffer_put and _get, acq32_path_readbuffer_stash
--   MaskIterator   hasNext, getNext, acq32_intsDisable, acq32_intsEnable, num_enabled_channels
--   LlProtocol     enterLLC and its callers, llv2_extend32, the waits
--   Wavcmd         dt100/ARM/d-bug/wavcmd.c: doSetRef and getRef
--   Hex            dt100/ARM/d-bug/hex.c: abtoi, itoba, isbin, fix_escapes
--   BigBuf         dt100/Linux/Drivers/acq200_bigbuf_alloc.c: the big buffer and the buffer pool
--   Channelize     acq200_lookup_pchan, acq200_lookup_lchan, channelize
--   Tests          in a component, its concrete inputs
--
-- Words are natural numbers below 2^32, and an operation that can pass that has its `% 2 ^ 32`
-- written out. What the firmware calls of the hardware layer (acq200_hal.c, acq32_drv.c and others)
-- is a parameter: its answers are the fields of the record Hal, and its effects a list of calls in
-- the state, in order. acq32_doLowLatencyControl, which takes the mailboxes over until it returns,
-- is a function on them. mboxSpin, which never returns, is an outcome of its own. The driver's
-- device is an interface, the record Bus, for the function pointers of struct Acq32Device; its
-- debug prints, locks and sleeps are left out, as are the debug prints of the firmware.
--
-- The text commands call the driver through the table p_md, the record MasterDriver, which takes the
-- path and may change it; strtol, of another project, is in it too. What they print is a list of
-- pieces, without the numbers' digits, and the 80 characters of a printed line are not counted but
-- in do_bucket_command.
--
-- Loops are on fuel or on lists. The loop over the lines of a write has a round for each of its
-- characters. acq32_devPollAck has its own bound of 0x100000 polls. The cursor
-- of the mask loops is halved in each round, so that 33 rounds bring any 32-bit one to 0; the
-- stash moves a byte of at most 4095 a round, and has 4097. getBitNum has the 32 bits of an int.
-- The scan of acq32_getNextSlave has 17 rounds, since its mask has 16 bits, and a loop over it two
-- more than there are boards, for the path's own and for the end; there are at most 8 boards.
-- acq32_BlockTillStopped has the number of timer ticks that pass before a signal.
-- acq200_bb_pool_alloc goes round its 15 buffers at most once between two of the sleeps in a list.
-- The waits of llprotocol.c run over the list of the values that the polled word shows.
--
-- Not modelled: the kernel glue of the driver (probing, file operations, interrupts), the capture
-- engine and hardware layer of the firmware, programs around the protocol, code in C++ and Java,
-- and copies of other projects' libraries.
pub mod Prelude
pub mod ReadBuffer
pub mod MaskIterator
pub mod Busprot
pub mod MboxSlave
pub mod Driver
pub mod LlProtocol
pub mod Channelize
pub mod Wavcmd
pub mod Hex
pub mod BigBuf
pub mod Command
