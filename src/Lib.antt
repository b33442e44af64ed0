-- ===== src/Lib.antt =====
-- miri-tool-v3 is the firmware of a field tool that uploads firmware to elevator boards and talks
-- to them over UART and CAN. This library models the parts of it that carry the protocols and the
-- file formats.
--
-- main/packet.c is modelled by Packet.antt: the parser's state is the record Packet, with the
-- calls of pf_parsing recorded in parsed, one received byte is parser_packet, and
-- ProductPacket_PacketSendByUART is packet_send_by_uart. Packet/RoundTrip.antt relates the two
-- and Packet/Overrun.antt treats the bounds of rBuff.
--
-- main/core/firmware_upload/fw_upload_packaging.c is modelled by Packaging.antt and its children,
-- generic in the state that a sink works on: process_bin in Binary, process_ihex in Ihex (a line
-- is read by read_chars and turned into an Action by line_action), process_coff and process_elf
-- in Container. Packaging/Pieces.antt treats the loops that cut a block into pieces,
-- Packaging/Ihex/File.antt the whole of an Intel HEX file.
--
-- main/core/firmware_upload/can_fw_update.c is modelled by CanUpdate.antt and its children:
-- FlatFile is bin_sink, the sink that fw_packaging_process writes a flat file with; Bus is the
-- part of main/base/can/incan.c that it uses, with the messages to come as a list and the
-- driver's answers as functions; Transfer is the session that sends the flat file to the board.
-- main/core/firmware_upload/fw_upload_state.c, which the session reports to, is FwState.antt.
--
-- main/core/hht is modelled by Hht.antt and its children: Keys is hht_keys.c, one call of
-- hht_keys_poll a step, with the writes to the terminal recorded; Display is hht_display.c, with
-- the rows handed to BLE recorded; Wb100 is the handshake of hht_wb100.c and Report the report of
-- hht_3000.c.
--
-- main/core/firmware_upload/probe_link and probe_link_update.c are modelled by ProbeLink.antt and
-- its children: Protocol makes packets, Response reads them from the characters that the line
-- yields, Update is the dialogue that writes a target, against a list of the replies to come.
-- What JSON configuration and %d print are fields of its configuration.
--
-- main/core/firmware_upload/fw_upload_storage.c and fw_upload_crypto.c are modelled by
-- Storage.antt: the writer and the reader of stored files, as the build has them with
-- FW_STORAGE_ENABLE_ENCRYPT and without. The block cipher of mbedTLS is a parameter, of which
-- Storage/Reading.antt assumes that it keeps the length of a block and decrypts what it has
-- encrypted. fw_upload_types.c and fw_upload_registry.c are FwTypes.antt.
--
-- main/core/firmware_upload/fw_upload_manager.c is modelled by Manager.antt and its children:
-- Names splits a file's name and type, Trim is about the white space around them, Search looks
-- for a file in the names of a directory, Uploads is the session that stores an upload.
--
-- The update of a file goes from the phone to the bus: main/base/ble/ble_gatt_server.c
-- (Ble/Transport.antt) parses the bytes that the phone writes, main/protocol/ble_cmd_parser.c
-- (Ble.antt and its children, the commands in Ble/Handler.antt and Ble/Commands.antt, what they
-- change in Ble/Device.antt) handles a command, main/core/firmware_upload/fw_upload_manager.c
-- (Manager/Run.antt) chooses the metadata and puts a job into the queue of fw_update_worker.c
-- (Worker.antt), whose task prepares the file and starts an update. Meta.antt is the metadata and
-- fw_upload_meta_defaults.c, Storage/Metadata.antt keeps them beside a file as JSON (cJSON is a
-- parameter), Card.antt is the files of the card by their paths. The drivers that an update
-- starts are recorded as calls of Started.
--
-- main/core/role_dispatcher.c and main/tasks/task_manager.c are Role.antt, with the step relation
-- of the roles in Role/Moves.antt; hht_main.c, hht_session.c and hht_task.c, which they start and
-- stop, are Hht/Main.antt, with the calls of the terminals' drivers recorded.
--
-- main/core/esp32_update/esp32_update.c is Esp32Update.antt and
-- main/core/stm32_update/stm32_update.c is Stm32Update.antt: the OTA driver is a parameter, the
-- answers of the bootloader are a list. Their loops over a file have the bytes that the reader
-- still has, and one, as fuel; the loop over a block in Stm32Update.antt has 257, more than the
-- values of its index, so that running out of it is a loop that never ends.
--
-- main/utils/ihex2bin.c and srec2bin.c are Convert.antt (the image in memory) and
-- Convert/Sink.antt (the conversion into a file). The readers of the two formats, kk_ihex and
-- kk_srec, are copies of other projects: the records that they hand over are the input of the
-- model. What realloc and the file system do is a parameter. Convert/Image.antt says what an
-- image holds at an address, Convert/Built.antt, Convert/Converted.antt, Convert/Streamed.antt
-- and Convert/ToFile.antt follow the records; Worker/Converted.antt puts the converter into the
-- update worker.
--
-- main/base/net/tcp/tcp_server.c is TcpUpload.antt: the upload of a client, through the session
-- of Manager.antt, onto the card of Card.antt. The pieces that arrive at the socket are a list,
-- the JSON text of the metadata and whether the file opens are given. Its loop has the awaited
-- size as fuel, since each round receives a byte at least.
--
-- Loops run on structural recursion or on fuel: process_lines on the length of the file, since
-- each round takes a byte at least; send_pieces, send_consecutive and write_pages on the number
-- of bytes, since each round moves one at least. Where a loop of the source can wait for ever the
-- model's run is stuck. An access outside an array is a fault. Machine integers wrap where the
-- source's do.
--
-- Not modelled: the drivers of ESP-IDF, the HTTP and console front ends, the sockets and GATT
-- tables below the TCP and BLE ones, the vendored readers main/utils/ihex_read.c and
-- main/utils/kk_srec.c, and what only formats or logs. A stored file is the list of its bytes.
pub mod Base
pub mod Ble
pub mod CanUpdate
pub mod Card
pub mod Convert
pub mod Esp32Update
pub mod FwState
pub mod FwTypes
pub mod Hht
pub mod Manager
pub mod Meta
pub mod Packaging
pub mod Packet
pub mod ProbeLink
pub mod Role
pub mod Stm32Update
pub mod Storage
pub mod TcpUpload
pub mod Tests
pub mod Worker
