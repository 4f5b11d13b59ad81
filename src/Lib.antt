-- ===== src/Lib.antt =====
-- AlmaOS: a small 32-bit kernel and its boot loader. This library models the parts of both
-- that carry their logic, each as functions on explicit state, and proves what makes them correct.
--
-- The keyboard interrupt feeds the ring of the driver, which the shell drains; the shell and every
-- other part print through the text console, directly or by printf; the page allocator carves its
-- memory out of the map that the boot loader leaves; getopt is there for commands to parse their
-- arguments with. The interrupt table calls the handlers of timer and keyboard. The video driver asks
-- the BIOS through the real mode trampoline, the graphics bridge copies a picture into the framebuffer
-- of its mode, and the video commands drive both. Stage 2 of the boot loader reads the disk and its FAT
-- volume, collects the memory map and leaves the boot information to the kernel.
--
-- Which file models what:
--   Base        shared: tests on native numbers, arrays as lists, words, C strings as code lists
--   Keyboard    src/kernel/keyboard.c. The record Keyboard holds the static variables; push,
--               handler, read, getchar, has_data, set_layout, get_layout and init are kb_push and
--               keyboard_*. Tables holds the scancode tables, Spec the specification, Ring the ring
--               as a queue, Decode the interrupt handler, Run sequences of operations, Layouts the
--               tables.
--   Kalloc      src/kernel/kalloc.c. init and pages are kalloc_init and kalloc_pages; the E820 map
--               is an argument. Blocks is about serving requests, Choice about choosing the region.
--   CString     src/kernel/string.c over a memory of bytes. strlen, strcmp and strcpy look for a
--               terminator and take fuel; more fuel than the text has characters is enough.
--   Getopt      src/kernel/getopt.c. The record State holds its globals; Long is getopt_long.
--               Progress, Clusters and Lookup hold the proofs.
--   Vga         src/kernel/vga.c up to its printf. The record Screen holds the static variables,
--               video memory, the cursor register and what went to the serial port. Terminal is the
--               specification; Grid and Typing relate the two.
--   Printf      the rest of src/kernel/vga.c. The two loops of print_uint run within 33 rounds and
--               the width; the format loop takes one round for each character. Undefined behaviour
--               is the result `none`. Numerals and Spec say what numbers and formats print.
--   Shell       src/kernel/shell.c and src/kernel/root/echo.c. The record Shell holds the command
--               buffer and the console; round is one pass of shell_run's loop, tokenize the loop
--               that cuts the line, with the 16 slots of argv as its bound. Lines is about the
--               editor, Bounds about the memory behind the buffer, Scans, Tokens and Words about the
--               tokenizer, Commands about running a command.
--   ModeSpec    the parser of mode specifications in src/kernel/cmd_video.c; Sizes is about its
--               sizes.
--   VideoCommands
--               the command mode and the summary of gfxdemo, in the same file: Specs is about what a
--               specification does, Readback about reading the framebuffer, Summary about the summary.
--   Video       src/kernel/video.c. The record Video holds its static variables, the transfer buffer
--               and what went to the palette's ports; the machine around it, BIOS included, is a
--               parameter. Choice is about the mode that video_set_vbe takes, Modes about the mode
--               described.
--   Gfx         src/kernel/gfx_bridge.c. The record Bridge holds its static variables; Colours is
--               about the palette, Buffers about the memory it takes from Kalloc, Rows about the
--               copy.
--   BootMemory  src/bootloader/stage2/memory.c: the E820 map, the allocator that the boot
--               information hands to the kernel (Requests), and the boot information itself (Maps).
--   Fat         src/bootloader/stage2/fat.c. Fat.antt has mounting, the chain of clusters and the
--               table of open files, which Mounting, Clusters and Handles are about. Reading has
--               FAT_ReadImpl and FAT_ReadEntry, Finding has FAT_FindFile and FAT_Open. A read of
--               sectors is a parameter. Streams says what the code gives from a position on, Chains
--               and Contents which sectors of the disk that is; Rounds, Advance and Sequential
--               relate the loop to it, Reads is about files, Places and Entries about directories,
--               Endless about the end of the root directory, Names about 8.3 names and Paths about
--               paths. A round of the loop takes a byte at least, so as many rounds as bytes are
--               asked for, and one more, are enough; the loop of FAT_Open takes a character of the
--               path in each round. The rounds of a search are an argument.
--   Stdio       src/bootloader/stage2/stdio.c. The record Console holds the state of its UTF-8
--               decoder and what has been shown, Printer the state of printf. Decoding is about the
--               decoder's steps, Utf8 about texts, Directives about format strings and Numbers about
--               printf_number, whose loop ends within the 32 bytes of its buffer; division stands for
--               x86_div64_32 of x86.asm. The strings that pointers point at are a parameter.
--   BootUtil    utility.c, ctype.c and string.c of src/bootloader/stage2.
--   Ports       src/kernel/include/io.h: what has been done at the ports. The devices are
--               parameters.
--   Serial      src/kernel/serial.c; Sending is about what goes out. The loop that waits for the
--               UART has the bound of the source, 100000 rounds.
--   Realmode    src/kernel/realmode.c over a memory of bytes; Calls is about calling the BIOS,
--               Descriptors about segment bases. The trampoline is a parameter.
--   Idt         src/kernel/idt.c; Dispatch is about the handler that an interrupt reaches, Messages
--               about the message of an exception.
--   Pic, Pit    src/kernel/pic.c and pit.c; Masks is about the interrupt masks, Divisors about the
--               divisor of the timer.
--   Disk        src/bootloader/stage2/disk.c: Geometry is the address of a sector, Retries the three
--               attempts. What the BIOS answers is a parameter.
--
-- Numbers are natural numbers; the wraps of the fixed widths are written out. A char is its bit
-- pattern. What ports answer and pending interrupts are arguments; an array is a list, and video
-- memory a function of the index.
--
-- Not modelled: the loop of gfxdemo and its drawing, which work on floats; assembly (the boot sector,
-- interrupt stubs, the trampoline and BIOS calls); the sequences in which stage 2 and the kernel
-- start; the vendored rasterizer in third_party/gfx; host tools and tests. Of the shell's commands,
-- mem, ticks, reboot, mode and gfxdemo are parameters.
pub mod Base
pub mod BootMemory
pub mod BootUtil
pub mod CString
pub mod Disk
pub mod Fat
pub mod Getopt
pub mod Gfx
pub mod Idt
pub mod Kalloc
pub mod Keyboard
pub mod ModeSpec
pub mod Pic
pub mod Pit
pub mod Ports
pub mod Printf
pub mod Realmode
pub mod Serial
pub mod Shell
pub mod Stdio
pub mod Vga
pub mod Video
pub mod VideoCommands
