-- ===== src/Lib.antt =====
-- Verification of ms605-ble, the driver of the Meross MS605 presence sensor: the parts of the
-- Python package ms605/ that decide something without a radio.
--
-- The program. A sensor is talked to in frames over Bluetooth LE. ms605/protocol.py builds and reads
-- the frames, cuts them into writes and joins notifications to frames again; ms605/models.py gives
-- the payload of each attribute its meaning and encodes what can be set. The driver, the sessions,
-- the command line and the web interface stand on these two. ms605/registry.py keeps the user's
-- sites and sensors in a file, and every change is saved before it counts.
--
-- Which file models what, with names in the source in the same spelling unless it is said there:
--   Prelude   shared names, lists, integers, and Result: a value or the class of a raised exception,
--             without its message. Prelude/Results lists the classes.
--   Bits      `&`, `|`, `^` and single bits of numbers that are not negative.
--   Bytes     `bytes` as lists of numbers below 256, slices, and the parts of `struct` in use.
--   Protocol  ms605/protocol.py: Crc (crc16_ccitt_false), Frame (_serialize_frame, build_command,
--             build_frame_raw, parse_frame, ParsedFrame), MsgId (msg_id_sequence), Chunks
--             (chunk_frame) and Reassembler (FrameReassembler, whose state is its buffer).
--   Models    ms605/models.py: Zones (tags 51 and 49), Segments (tags 48, 41 and 50), Live (tags 64
--             and 55), History (tags 57 to 60), Intervals (tags 98 and 21), Config (decode_config;
--             MS605Config is Ms605Config), Fields for the fields that they are made of.
--   Equality  Python's `==` on None, lists and pairs.
--   Profiles  ConfigProfile of ms605/models.py: from_config, validate and diff_sections, with
--             ZoneSets for the sorting of zone numbers and Same for what diff_sections says.
--   Driver    ms605/driver.py: apply_profile and the set_... methods that it calls. Values says how a
--             section is read back, Applied and Learning what apply_profile does.
--   Fleet     ms605/fleet.py: Changes (ThresholdChange, SensorChanges, Draft) and Apply (poll_verify,
--             _apply_locked, here apply_locked, and apply_changes), Drafts (Fleet.apply) and Batch
--             (BatchCalibration).
--   Session   ms605/session.py: the operation lock, the live count and the link (DeviceSession's
--             operation, acquire_live, release_live, _resync_live, _lose, _establish, close).
--   Dicts     strings as lists of code points, and dictionaries in the order of insertion.
--   Registry  ms605/registry.py: the records, add_site to remove_sensor in Registry itself, Matching
--             (match, here match_device, and address_for), Importing (import_sensor_info from its
--             entries on, here import_entries), and Calls: a call as a value and what it does.
--   Events    ms605/events.py: the states of a link and of a calibration; Bus (EventBus) and Stream
--             (EventStream), with the reader that a stream is compared with in Stream/Log.
--   Calibration  ms605/calibration.py: CalibrationJob, with what it meets in Calibration/World and
--             its run in Calibration/Run.
-- A file named Tests has the concrete inputs.
--
-- Arguments that the code checks for their range are integers, so that a negative one is a case of
-- the model. Loops run on a count of rounds: the attributes of a frame on the body's length, since
-- each takes three bytes or more; the reassembler on the buffer's length and one more, since each
-- round but the last shortens the buffer; the pieces of a frame on the frame's length, since none is
-- empty; `emit` of the bus on the depth of its calls of itself, its callbacks' calls of it included,
-- which a rank of the events bounds. That the counts are enough is part of the results.
--
-- Of the registry, the outcome of a save, the clock and `str.lower` are arguments, and a record is a
-- value: who else holds it is not followed.
-- Of the driver, the exchange with a device (`_send`) is an argument, over any type of devices. That
-- a device keeps what it acknowledged is a hypothesis, IsStore of Driver/Applied.
-- Applying changes takes the driver's and the storage's operations as arguments over any type of
-- states, Device of Fleet/Apply; `poll_verify` runs on the number of readings that end before its
-- deadline, and reads once more.
-- A batch of calibrations runs its jobs one after the other on the model of a job, each in a world of
-- its own; that their steps interleave is not modelled. The turns of its wait for the fire are a list.
-- A session's call and the write that it awaits are one step. The trace of the acknowledged writes of
-- tag 54 on a link is no field of the code, and what a device sends is not modelled: during a
-- calibration it streams on its own. The invariant of these writes is about calls whose writes are
-- acknowledged, with no link coming up under a calibration's lock: Session/Tests shows what else
-- happens.
-- Of a calibration, how each `await` ends and what other tasks do while it lasts is a value, the
-- world, and a theorem ranges over all worlds: every place where `cancel` or a cancelled task can
-- come in is a field of it.
--
-- Not modelled: the texts of exceptions and logs, the driver's connection with its Bluetooth
-- library, the web server, the command line, the tools and the web client.
pub mod Prelude
pub mod Bits
pub mod Bytes
pub mod Dicts
pub mod Equality
pub mod Protocol
pub mod Models
pub mod Profiles
pub mod Driver
pub mod Fleet
pub mod Session
pub mod Registry
pub mod Events
pub mod Calibration
