-- ===== src/Lib.antt =====
-- Verification of ch32fun_WiNotAP: access points and clients of WiNoT, Ethernet frames over the iSLER
-- radio of WCH chips.
--
-- The program. WiNot.h is the protocol: a node is a client or an access point (AP). A client asks for an
-- exchange on the request channel; the AP answers with the channel on which the two go on, or with
-- channel 35 when nothing is left to say. Packets larger than a fragment of 245 bytes go over the data
-- channel in up to seven fragments. usb_sfhip.c, iSLER_sfhip.c and eth_sfhip.c are three firmwares; the
-- first two use WiNot.h and join it to USB and to the IP stack sfhip.h.
--
-- Files and what they model.
--   Prelude, Prelude/*   shared names, tests, lists over the native numbers, faults, facts on bytes.
--   Memory, Memory/Laws  arrays of bytes, memcpy, little-endian words, subtraction of bytes.
--   Radio, Radio/*       the calls of the driver iSLER.h, recorded in the order made; the radio
--                        between two nodes as a parameter with the behaviour that README.md states, and
--                        who hears whom: the address and the channel of a frame are those listened to.
--   Node, Node/*         the static variables of WiNot.h as a record, winot_change_state.
--   Routing, Routing/*   winot_routing_table_store, winot_print_routing_table.
--   Fragment, Fragment/* winot_burst_tx_and_communicate, winot_defragment.
--   Receive, Receive/*   winot_process_rx: AP on the request channel, client awaiting its response, data
--                        channel, noise.
--   Request, Request/*   winot_init, winot_request, winot_send_packet, winot_sidechannel_tx,
--                        winot_poll_packet, winot_release_packet.
--   Tick, Tick/*         winot_tick.
--   Usb, Usb/*           HandleDataOut, usb_poll_packet, usb_release_packet of usb_sfhip.c.
--   Usb/Out, Usb/Out/*   usb_send_packet, _write, putchar, HandleInRequest, HandleSetupCustom of
--                        usb_sfhip.c.
--   Http, Http/*         sfhip_tcp_event and the other hooks that usb_sfhip.c and iSLER_sfhip.c have in
--                        common, the MAC address and the host name.
--   Sfhip, Sfhip/Polite  the calls of the IP stack sfhip.h, a parameter, and what it is relied on for.
--   Clock, Clock/*       the milliseconds of the three main loops, and the schedule of the tasks.
--   Client, Client/*     main, announce_up and the hooks of iSLER_sfhip.c.
--   Ap, Ap/*             main and sfhip_send_packet of usb_sfhip.c.
--   Eth, Eth/*           eth_sfhip.c: the set-up of its driver, its loop and its hooks.
--   Descriptor, Descriptor/*  the USB descriptors of usb_config.h.
--   System, System/*     all calls of WiNot.h as one relation between nodes, and what is reachable.
--
-- How state and code correspond. A function of WiNot.h that changes the static variables takes a Node and
-- returns Option Node. `none` is an access outside an array, after which C defines nothing. The frame in
-- LLE_BUF is a function from offset to byte, since the driver answers for its extent. `data == gs_winot_data_buf`
-- is the constructor `own` of Packet. The `int` tick is the 32-bit word that the target computes with; C
-- leaves its overflow after 24 days undefined. Lengths are natural numbers: no caller passes a negative one.
-- Debug output is left out, but for the report of missing fragments.
--
-- The main loops. A firmware's static variables are a record (Client, AccessPoint, EthPoint), a round of
-- its loop is `loop_round`, and the clock of the chip, the frame at the radio and the packet at the
-- Ethernet driver are its arguments. sfhip is a parameter: its memory, and for each call of it a tree of
-- what it does until it returns, that is to read or write the buffer it was given or to call a hook of the
-- firmware. Theorems that rely on it name what they rely on (Sfhip/Polite). The interrupt that brings a
-- part from the USB host comes between two rounds, never within one.
--
-- Two nodes together. Request/Upload and Request/Collision let a client and an access point take turns, each
-- with what it hears of the other, given to winot_process_rx. Request/Turn and Request/Download give each
-- frame to winot_tick, which handles it and acts on the time that passed in one call; as the access point's
-- call goes on to send a packet larger than a fragment, the client takes the data channel while that call
-- runs, and a parameter says how many fragments are on the air by then. Ap/Delivery and Ap/Meeting put the
-- USB host before and behind them. Frames that another node sends at the same time are not part of these runs.
--
-- Fuel. The loop of the burst gets len + 1 rounds, of which each sends at least a byte: that it returns is
-- part of `Fragment.Burst`. usb_send_packet gets as many rounds as it has bytes to send, and each sends at
-- least one, as USBFS_PACKET_SIZE is positive. The printing loop gets 33 rounds, after which its index has left the table.
--
-- Not modelled. sfhip.h is a copy of another project's IP stack; the drivers (iSLER.h, ch32fun, fsusb.h,
-- usbd.h, ch32v208_eth.h) are not in the repository; usb_sfhip.py runs on the host. Of the firmwares the
-- pins, the LED, the printed lines and the set-up of the chip are left out.
pub mod Ap
pub mod Client
pub mod Clock
pub mod Descriptor
pub mod Eth
pub mod Fragment
pub mod Http
pub mod Memory
pub mod Node
pub mod Prelude
pub mod Radio
pub mod Receive
pub mod Request
pub mod Routing
pub mod Sfhip
pub mod System
pub mod Tick
pub mod Usb
