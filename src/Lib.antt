-- ===== src/Lib.antt =====
-- Open-GBFlash firmware: the device side of the FlashGBX protocol, its clock, its USB data
-- paths, its CRC and the seam to the LK core.
--
-- The firmware polls: fw_main takes bytes off the USB receive ring (bl_usb_rx), feeds them to the
-- parser (fw_proto_feed, or fw_proto_feed_bulk inside a payload), sends what a handler put into the
-- reply buffer, and then serves the requests that the handlers left in fw_state_t. The parser's
-- timeout (fw_proto_tick) runs on the millisecond clock (bl_time_ms). A bus reset of the USB link
-- drops the command in progress (fw_proto_link_reset). Game Boy bus commands go to the LK core, another
-- project's code, through the seam of src/lk_glue.c, which hands the core its bytes, guards the 5 V
-- supply and bounds what the core is given.
--
-- The files, by the code that they are about:
--   Common                 shared names; C arrays as functions of the index; wrap-around of 8, 16 and
--                          32 bits written as remainders
--   Proto.Command          include/proto.h CMD_*; src/proto.c arg_len, known_opcode
--   Proto.State            include/fw_config.h, include/proto.h: limits, fw_state_t; src/proto.c: the
--                          parser's statics, parser_reset, fw_proto_init
--   Proto.Variable         src/proto.c set_variable, get_variable
--   Proto.Blob             src/proto.c be32, put_be32, put_be16, get_var_state, set_var_state
--   Proto.Execute          src/proto.c fw_proto_fw_info, execute
--   Proto.Payload          src/proto.c payload_opened, payload_len, payload_done
--   Proto.Feed             src/proto.c fw_proto_feed, fw_proto_feed_bulk, fw_proto_tick,
--                          fw_proto_link_reset, fw_proto_idle and the two payload queries
--   Timebase               src/timebase.c, include/timebase.h: bl_time_init, bl_time_ms
--   Usb.Copy               src/usb.c usb_copy
--   Usb.Receive            src/usb.c rx_used, rx_free, rx_credit_update, rx_deliver, the OUT case of
--                          the service routine, the credit part of usb_pumps, bl_usb_rx
--   Usb.Transmit           src/usb.c tx_pump and its arms, the staging of packets, the transmit half of
--                          usb_pumps
--   Usb.Produce            src/usb.c bl_usb_tx_direct_begin, _publish, _sent, _end, tx_queue, the
--                          transmit half of usb_session_flush and usb_bus_reset
--   Usb.Send               src/usb.c bl_usb_tx
--   Usb.Complete           src/usb.c the IN case of the service routine, and the IN transaction in front
--                          of it: the packet that is up goes out and the toggle advances
--   Usb.Control            src/usb.c ep0_setup, ep0_vendor_in, ep0_class_in, ep0_class_out, ep0_standard, ep0_in,
--                          ep0_out; src/usb_desc.c: the CDC tables and the vendor table
--   Usb.Interrupt          src/usb.c fw_usb_irq_handler, bl_usb_irq_arm, bl_usb_irq_disarm and their part of
--                          bl_usb_init and bl_usb_poll; src/main.c fw_usb_irq_tick
--   Flash.Wait             src/main.c agb_status_wait, dmg_status_wait
--   Flash.Loops            src/main.c the loops of the pumps and of the rest of a block
--   Flash.Agb, Flash.Dmg   src/main.c agb_program_chunk, agb_stream_pump, dmg_apply_bank_change,
--                          dmg_program_unbuffered, dmg_program_chunk, dmg_stream_pump; Flash.Bus the calls of the bus
--                          drivers that they make
--   Flash.Program          src/main.c do_flash_program, dmg_program_buffered, the pumps of the receive loop
--   Crc32                  src/main.c crc32_step; Crc32.Tables its tables, Crc32.Bitwise the
--                          independent definition that it is compared with
--   Glue.Seam, Glue.Link   src/lk_glue.c: the statics, fw_lk_conn_recv, conn_send_raw, fw_lk_conn_send,
--                          fw_lk_delay_ms; src/main.c cart_wait_ready
--   Glue.Mirror            src/lk_glue.c mirror_to_lk, mirror_from_lk
--   Glue.Dispatch          src/lk_glue.c fw_lk_routes, fw_lk_voltage_5v, lk_refuse, lk_admit,
--                          fw_lk_dispatch; src/cart.c fw_cart_voltage
-- The other modules under Proto, Timebase, Usb, Flash, Crc32 and Glue hold proofs, each named for what it proves; Tests
-- holds runs on concrete values.
--
-- State is passed explicitly. A handler takes the state, the parser and the caller's reply buffer and
-- returns the new state, the buffer and the count of bytes to send. A byte is a natural number; where
-- the source casts or a counter wraps, the remainder is written out. A list given to the parser may
-- hold any numbers.
--
-- The model is of the shipped build: FW_USB_CDC, FW_VARSTATE_WE_PIN, FW_PROTO_FAST_COPY, FW_FAST_COPY, FW_FAST_CLOCK,
-- FW_USB_ISR_LEAN, FW_USB_IRQ, FW_TX_DIRECT, FW_TX_PIPELINE, FW_USB_TX_TOG_SHADOW, FW_CRC32_SLICE4,
-- FW_LK_ROUTE, FW_WRITE_STREAM, FW_DMG_WRITE_STREAM, FW_AGB_WRITE_BURST, FW_DMG_WRITE_BURST,
-- FW_DMG_BUF_BURST, FW_DMG_UNLOCK_BYPASS, FW_DMG_SKIP_FF, FW_DMG_POLL_TIGHT and FW_STATUS_WAIT_TIGHT on,
-- FW_DMG_POLL_STRIDE 1, FW_USB_CDC_BREAK 0, FW_AGB_SKIP_FF, FW_RX_DBUF, FW_TX_REWIND and
-- FW_LK_ROUTE_DMG_READ off, and the probes FW_DMG_PROFILE and FW_CLKPROBE off; a CPU clock of 40 MHz. What the hardware reads (the SysTick counter, the endpoint's packet and length, the
-- toggle test) and whether two addresses are aligned are arguments of the definitions.
--
-- The seam waits for the host in loops that poll. Each poll is a turn, given in a list: the bytes that
-- have come in, what the clock reads then and how many bytes the transmit side takes. A loop recurs on the
-- turns to come and is none when they run out while it still waits. The LK core is a parameter: a
-- program that receives, sends, asks for 5 V, delays, and finishes with its own variables.
--
-- Flash programming calls the bus drivers of src/cart.c, which are not modelled: a cartridge is the list of
-- the calls so far, with their arguments, and the list of what each poll of a status wait will read and
-- what the clock says around it. A wait recurs on the polls to come and is none when they run out while it
-- still waits. The pumps of the receive loop and the loop over the rest of a block recur on fuel, the
-- bytes filled and the length of the block: each round takes at least one byte. bl_usb_tx recurs on its
-- lulls, the polls that find the staging buffer full: how many packets the host takes, and the clock.
--
-- Loops over arrays are structural recursion on the number of rounds left. The three loops of
-- bl_time_ms run on fuel: 257 rounds of 65,520 cycles for the first loop, 2 for the correction of the
-- quotient and 512 for the carry into milliseconds. At most 2 ^ 24 + 39 cycles are due at one reading,
-- which asks for at most 256, 1 and 420 of them; the exactness theorem rests on that.
--
-- Not modelled: the PLL start and usb_device_init of src/usb.c, which are register sequences, and the
-- CH340 device and configuration tables of src/usb_desc.c, which this build does not present; of
-- src/main.c the send loop pump, do_crc32, the read loops, the save, EEPROM and RTC services and the dispatch of
-- fw_main (the step relation of Proto.Events lets it change the state in any way that keeps the transfer
-- size clamped); the pin-level bus drivers of src/cart.c; the LK protocol core, which is another project's;
-- start-up assembly and vectors; the host's tools. A region's bytes are those it holds when they are
-- published; the lock regions of tx_queue are taken as one step, and so is an entry of the USB interrupt.
-- What bl_usb_poll does to the rings between two chunks is not in the model of the programming: it does not
-- touch the payload or the session's state. The register-level repair in uep2_ctrl_rmw is reduced to the
-- field that it sets.
pub mod Common
pub mod Proto
pub mod Timebase
pub mod Usb
pub mod Crc32
pub mod Glue
pub mod Flash
