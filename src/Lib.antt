-- ===== src/Lib.antt =====
-- TX Link, a plugin of SDRuno that links SDRuno, WSJT-X and a transmitter behind an Arduino: a model
-- of its core, and what holds of it. Paths below without a folder are in SDRunoPlugin_TXLink/.
--
-- WSJT-X sends its status as UDP datagrams. A thread of the plugin (UDP_Server) decodes them, has the
-- next message encoded as tones by WSJT-X's own encoder, and posts an event to the form by shared
-- globals. The form's timer (OnTimer) takes the event: it sets the frequencies in SDRuno and writes
-- commands to the COM port of the Arduino. The same timer takes the messages of the other threads (the
-- events of SDRuno, the RTTY server) and the messages of the Arduino. A further thread turns the
-- clicks of a tuning knob into frequencies. The sketch in TXlink4_Nano/ is the program of the Arduino:
-- it runs the commands, drives the frequency synthesizer AD9851 through the tones of FT8 and FT4, and
-- keys the texts of RTTY.
--
-- Base       bytes, texts, the memory of a little-endian host, signed integers, lists
-- Queue      MessageQueue.h: ThreadSafeMessageQueue, and the interleavings of its calls
-- Packet     WSJTX_Packet.h: the readers, the header and the Decode of each class; Messages and
--            Status are the classes, Reads, Header, Bounds, Wire and TxMessage their proofs
-- Type17     UDP_Type17.cpp: sendSetFreqCommand and its helpers
-- Encode     UDP_Server.cpp: EncodeMessage, removeTrailingSpaces
-- Udp        UDP_Server.cpp: ProcessPacket (process_packet, process_status) and, in Loop, UDP_Server
-- Settings   SDRunoPlugin_TXLinkForm.cpp: the GetValid functions, LoadSplitMode, SaveSplitMode
-- Annotator  SDRunoPlugin_TXLink.cpp: the linked list of annotations, AnnotatorProcess
-- Form       SDRunoPlugin_TXLinkForm.cpp: SendTXfreq, SendRXfreq and SetupDataMode (Frequency),
--            ProcessUDPEvent (UdpEvent), bLastTenCalls (Calls)
-- Panel      SDRunoPlugin_TXLinkForm.cpp: ProcessMessageQueue, ProcessIncomingSerial and, in Timer,
--            OnTimer and SetStandbyMode
-- Ui         SDRunoPlugin_TXLinkUi.cpp: HandleEvent
-- Tuner      TunerServer.cpp: Tuner_Server_Loop
-- Rtty       RTTY_Server.cpp: RTTY_Server_Loop
-- Transmitter  TXlink4_Nano/TXlink4_Nano.ino: the global variables, ProcessSerialIn (Serial, Commands),
--            setup (Setup), AdjustStart (Start), DigitalTXmsg (Message, and its transitions in Gauss),
--            SWRmeasure, SendSWR and CheckFanState (Safety), loop (MainLoop);
--            rtty_queue.ino (Texts); RTTY.ino (Baudot, Rtty); AD9851.h (Chip); Numbers is its C library
-- The Examples modules run the model on concrete inputs.
--
-- Functions have the names of the source in lower case, and each takes and returns the state that the
-- source's function reads and writes. A read outside a datagram is `none`. An exception that leaves a
-- function is `none` or a Boolean beside the state. What other threads do while the UDP thread sleeps
-- is an argument; so are the child process of the encoder, the results of sockets, of the pipe and of
-- the COM port, and the clock. Doubles are their bit patterns in packets and whole numbers of Hz in
-- the form. Every loop is structural recursion on its input: on the bytes, lines, messages or rounds
-- that it takes, and on the number of sleeps left, so no bound is made up; `to_string` recurs on the
-- number itself, which is more than its digits. Only transmitRttyString has fuel, which counts texts, and
-- 72 characters for each text: the slots have 71, and `transmit_rtty_string-ends` gives the texts.
-- On the Arduino an int has 16 bits; what it writes to pins, chip and line is a list of effects, and
-- what is received and measured while it keys a bit is an argument, and so are the clock and the measured values at each
-- look at the clock while a tone lasts (`Moment`) and in each pass of `loop` (`Pass`).
--
-- Not modelled: windows, labels, colours and the log; Winsock's start and close; the serial port and
-- the named pipe themselves; the DX spider client; the dialogs; the buttons of the form; threads, and
-- of the unload all but what OnTimer does; of the demodulators, those other than CW and USB; of
-- SaveIniData, all but the split mode; of the Arduino, the averages of the analog inputs and their
-- texts, which are doubles: what they come to is a `Reading`, an argument of the measurements.
pub mod Base
pub mod Packet
pub mod Type17
pub mod Queue
pub mod Encode
pub mod Udp
pub mod Settings
pub mod Annotator
pub mod Form
pub mod Panel
pub mod Ui
pub mod Tuner
pub mod Rtty
pub mod Transmitter
