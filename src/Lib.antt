-- ===== src/Lib.antt =====
-- LLOS, a small cooperative operating system for microcontrollers: the kernel of
-- LLOS/kernel/llos.c and the components of LLOS/component.
--
-- The parts and how they interact. An application registers tasks (an event callback each), starts
-- events on them, sends them messages, sets software timers and alarms, and registers coroutines.
-- The tick interrupt calls LLOS_Tick_Increase, which moves the tick, the clock, the alarms and the
-- timers; the main program calls LLOS_Loop again and again, which calls the callbacks of the events
-- that are due, from the highest event of the first task on, and then the coroutines. The LED and the
-- key components take their arrays from the pool and run on a software timer each. The EEPROM
-- emulation keeps variables in flash sectors through a driver's callbacks and guards each record with
-- the CRC component. The FIFO stands by itself.
--
-- Files:
-- - Base: names that all files share, lists with C's indexing, words of fixed width, the Boolean
--   tests of C, and laws of the bitwise operations.
-- - Types: the error codes and event masks of LLOS/kernel/llos.h.
-- - Fifo: LLOS/component/llos_fifo.c, one definition per function (LLOS_FIFO_Init is `init`,
--   LLOS_FIFO_Input is `input`, and so on). Fifo/Queue is the bounded queue that a client sees,
--   Fifo/Ring the invariant and the contents, Fifo/Init, Fifo/Refine and Fifo/Calls the proofs.
-- - Rtc: LLOS_RTC_SetDate, LLOS_RTC_GetDate and their helpers in LLOS/kernel/llos.c. Rtc/Spans
--   counts days and seconds of years and months, Rtc/Seconds describes dates without the code,
--   Rtc/Gregorian the calendar that they are held to; Rtc/Dates and Rtc/Week are the proofs.
-- - Kernel: the static variables of LLOS/kernel/llos.c as a record, and the application's
--   callbacks as a parameter `App`. Kernel/Tasks (LLOS_Register_Events, LLOS_Start_Event,
--   LLOS_Stop_Event), Kernel/Messages (LLOS_Msg_*), Kernel/Scheduler (LLOS_Loop and the statistics),
--   Kernel/Timers (LLOS_Timer_Set and the timer part of LLOS_Tick_Increase), Kernel/Clock
--   (LLOS_RTC_SetAlarm and the clock part), Kernel/Ticks (LLOS_Tick_Increase), Kernel/Coroutines
--   (LLOS_Coroutine_*). Their children hold the proofs, and the examples in modules named Tests.
-- - Pool: LLOS_malloc, LLOS_free and LLOS_Pool_GetUsedSize, as scans over the words of the pool;
--   Pool/Fit proves what a scan finds in any memory. Pool/Chunks describes a pool as blocks and free
--   words; Pool/Scans, Pool/Search, Pool/Carve, Pool/Stores, Pool/Heap and Pool/Free show how the
--   code works on it, Pool/Clients the sequences of calls, Pool/Clean memory that is zero when
--   free, Pool/Blocks that blocks do not overlap.
-- - Boot: LLOS_Init, LLOS_ErrorHandler, LLOS_System_Reset and LLOS_Critical on the models of the kernel, the devices
--   and the pool. Boot/Layout is the pool that LLOS_Init fills, Boot/Lists its five lists, Boot/Entries and
--   Boot/Outcome what it leaves.
-- - Shell: LLOS_Cmd_Init and LLOS_Cmd_Input, with the parameters (LLOS_Cmd_Param*) in Shell/Params and
--   the printed lines (LLOS_Cmd_Result*, LLOS_Cmd_IDN) in Shell/Output; Shell/Dispatch, Shell/Lines,
--   Shell/Decimals and Shell/Texts are the proofs.
-- - Crc: LLOS/component/llos_crc.c (LLOS_CRC_CAL is `crc_cal`), with the presets in Crc/Models.
--   Crc/Serial is the textbook register that takes in one bit at a time, Crc/Serial/Registers and
--   Crc/Serial/Loops compare the code's loops with it, Crc/Reverse the two reversals of bits;
--   Crc/Textbook and Crc/Detect have the theorems.
-- - Eeprom: LLOS/component/llos_eeprom/llos_eeprom.c. The records and the callbacks stand in Eeprom,
--   addresses and reading in Eeprom/Slots, writing and the rotation in Eeprom/Write, LLOS_EEPROM_Init
--   in Eeprom/Init, the functions of the header in Eeprom/Api. Eeprom/Reads, Eeprom/Stored,
--   Eeprom/Refused, Eeprom/Backup, Eeprom/Records, Eeprom/Otp, Eeprom/Programmed, Eeprom/Layout and Eeprom/Places are
--   the proofs.
-- - Device: the device framework of LLOS/kernel/llos.c (LLOS_Register_Device and LLOS_Device_*), with
--   Device/Names and Device/Opened for the proofs.
-- - Led: LLOS/component/llos_led.c, with Led/Blinks for the proofs.
-- - Key: LLOS/component/llos_key.c, with Key/Release for the proofs.
--
-- How the code is rendered. A number of C is a native natural number with its wrap-around written
-- out; a pointer that may be NULL is an option; a function pointer is a number, and `App` says what
-- a call of it does to the kernel and to the application. An array is a list; a read out of range,
-- which the code never does under the theorems' conditions, gives a default, and a write there does
-- nothing. Log lines and LLOS_Critical, which masks interrupts, change no state here. The flash
-- of the EEPROM emulation is a type of its own, and the callbacks of its configuration are functions
-- on it; a read changes nothing. A record in flash is two words of a little-endian machine. The
-- level of a key's pin may differ between two reads of it in one tick.
--
-- Bounds and fuel. The loops over tasks, timers and alarms read their byte-sized bound in each
-- round, so they run on 256 units of fuel, and the theorems on them hold for every byte. The loop
-- over the coroutines has 3, one more than LL_COROUTINES_MAX. The loops of LLOS_RTC_GetDate run on
-- the number of days and give `none` when it is spent, which is shown never to happen. The scans
-- of the pool run on one unit more than the pool has words, which is shown to be enough.
-- The loops of the EEPROM emulation, of the CRC, of LLOS_LED_Tick and of LLOS_Key_Tick recurse on the
-- rounds that are left.
--
-- Not modelled: LLOS_Device_EnumAll, which only prints. The library's `qsort` and `strtof`, the arithmetic on
-- floats and how a float is printed are parameters. What the
-- shell writes into its buffer is not followed back into the words of the pool. Also left out are
-- LLOS/kernel/llos_conf.c, which is hardware access; the demos and the vendor's library under
-- LLOS_Demo. A second call into the LED or the key component between two turns of the loop of its
-- tick is left out, and so are CRCs over a length other than that of the data.
pub mod Base
pub mod Types
pub mod Fifo
pub mod Rtc
pub mod Kernel
pub mod Pool
pub mod Crc
pub mod Eeprom
pub mod Led
pub mod Key
pub mod Device
pub mod Boot
pub mod Shell
