-- ===== src/Lib.antt =====
-- A verification library for linux_char_driver_frame, a frame for Linux character drivers.
--
-- The driver takes the messages of its users apart and sends what they ask for as tasks. When it
-- is loaded (driver/plat_driver.c), it sets up the formats of its messages
-- (driver/libproto_analyzer/pdt_drv_proto_format.c) and two administrations of tasks
-- (driver/task_admin). A write to the device goes to the dispatch of messages (driver/business),
-- which makes a protocol analyser (driver/libproto_analyzer) for the number of the message, with
-- the fields of its format and a hash map from their names to their addresses, parses the message,
-- makes a task of its values, and sends it to an administration, where it waits in a list. The
-- containers are in driver/libdata_structure.
--
-- Which file models which part:
-- - Base: C's machine integers, arrays and faults. Every function that can leave defined behaviour
--   returns `Run`, a value or the fault that it commits. Words are natural numbers below 2 ^ w with
--   the wrap-around written out, and a negative `int` is its bit pattern.
-- - Codec: the bit and byte codecs of driver/libproto_analyzer/protocol_analyzer.c (`pow`,
--   `get_bit_data`, `set_bit_data`, `pa_set_protocol_*_data` and the loops of
--   `pa_get_protocol_*_data`).
-- - HashMap: driver/libdata_structure/hash_map/hash_list.c and the inline functions of
--   driver/include/libdata_structure/hash_list.h. HashMap/Walk has the positions and what walks
--   over them.
-- - LinkList: driver/libdata_structure/link_list/link_list.c. LinkList/Walk follows the loops over
--   a list.
-- - Format: driver/libproto_analyzer/protocol_format_set.c. Format/Number has the parser of numbers
--   (`hexstr2num`, `atoi`, `str2num`), Format/Info the attributes of one field, Format the lists of
--   fields and the table of formats, and Format/Free what their deletion gives back.
-- - PdtFormat: driver/libproto_analyzer/pdt_drv_proto_format.c, the driver's five formats row by
--   row. PdtFormat/Names has the strings, PdtFormat/Layout an independent description of the
--   fields.
-- - Analyzer: the rest of driver/libproto_analyzer/protocol_analyzer.c. Analyzer/Setup finds and
--   copies the format of a message and makes the hash map from names to fields; Analyzer has the
--   values, the variable lengths, and the generator and the parser of a message.
-- - TaskAdmin: driver/task_admin/task_admin.c. TaskAdmin/Queue is the abstract view of an
--   administration as two queues of tasks, and TaskAdmin/Sound what every operation keeps.
-- - Business: driver/business/business.c. Business/Decode says what a message means, from the
--   layout of its fields alone; the files from Business/Parse to Business/Send are about the
--   parser and the tasks that follow it.
-- - PlatDriver: driver/plat_driver.c. PlatDriver/Deliver follows a write to the queue of its task,
--   PlatDriver/Files has the operations of the device's file, and PlatDriver/Reach the states that
--   writes and fetches reach between the loading and the removal, as a relation of steps.
-- - PlatDevice: device/plat_device.c, the module with the device that the driver is for.
-- - Allocator: driver/liballoc. Allocator/Client has the calls of a client and what they are to do.
-- - Locks: driver/libcre/sync_lock/sync_lock.c, whose functions do nothing.
-- - Uevent: udev1.c, a program of its own that listens to the kernel's events. Uevent/Strings says
--   what a message means.
-- - Tests: runs at concrete inputs.
--
-- The store is explicit: a list or a chain of a map holds its nodes in their order, each with its
-- address, and an operation takes a node by the address. A list whose head was unlinked says so, and
-- a walk through the head is then a fault. The addresses that the allocator returns are arguments of
-- the operations that allocate, and 0 is NULL: it is tested where the source tests it, and written
-- through where the source does so. What the kernel answers is an argument, too. What the driver
-- obtains while it is loaded is a list of its own in PlatDriver, from which the removal takes what it
-- gives back: the class device, the allocator, the formats and the records of the lists and maps
-- stay.
--
-- Loops whose length the types do not show run on fuel. A bit loop moves one bit at least in a
-- round, so that the length of the field is enough, and so is the length of the message for the
-- parser of an event. The loops over a hash map, over a list and over a table of at most 255
-- formats are shown to end with fuel for one round more than there are nodes or entries, and so is
-- the removal of the driver for the tasks that wait.
--
-- Not modelled: `kmalloc` and `kfree`, which are arguments of the allocators, while the other parts
-- take the addresses that they give; the pools and slabs of
-- driver/include/liballoc/allocator_ctr_alloc.h, which no code uses; several threads at once, which
-- the locks do not keep apart; logging and printing; registration with the kernel, whose answers
-- are arguments; driver/include/libdata_structure/list.h, a copy of the kernel's lists; the drivers
-- of the analyser and the test programs, which try it out from user space.
mod Base
pub mod Codec
pub mod HashMap
pub mod LinkList
pub mod Locks
pub mod PdtFormat
pub mod TaskAdmin
pub mod Format
pub mod Allocator
pub mod Analyzer
pub mod Business
pub mod PlatDriver
pub mod Uevent
pub mod PlatDevice
mod Tests
