-- ===== src/Lib.antt =====
-- A model of the programs of an operating-systems course, and proofs of what makes them correct.
--
-- Tasks (lab5): producers, consumers and a manager share a buffer of tasks, guarded by the
-- semaphores `mutex`, `empty` and `full`. Tasks/Process has the loops of lab5/zad3/src/producer.c,
-- consumer.c and manager.c, a call at a time; Tasks/System lets any number of them make their calls
-- in any order, which a list of picks gives. Their critical sections stand behind the interface
-- `Store` of Tasks/Store: Tasks/Single is that of lab5/zad1 (one ring of K = 5 tasks, and no
-- manager), Tasks/Priority that of lab5/zad3 (two rings of K = 10 tasks, with aging and monitoring).
-- lab5/zad2 is lab5/zad3 without the manager, so that a run without managers is one of it.
-- `Implements` is the contract of a store: an abstract queue, and the laws by which the rings
-- implement it. The values of rand() are drawn by the schedule. Tasks/Setup is the set-up of the
-- shared memory and the named semaphores, by any number of processes that check their calls, in any
-- order, with what the signal handlers close and the cleaner removes, and Tasks/Setup/Producer how
-- the producers start, of which those of lab5/zad2 and lab5/zad3 check fewer calls, and close what
-- they have opened. Tasks/System/Interrupt is the end of a process by a signal amid its
-- loop, and Tasks/System/Kills any number of such ends; one that falls amid the writes of a critical
-- section, which is one step of the model, leaves anything in the shared memory. Sleeping and
-- printing are not modelled.
--
-- Signals (lab2): Signals/Kernel is what a process sees of SIGUSR1 (disposition, mask, pending
-- signal, output, which is unbuffered), Signals/Modes and Signals/Loop are lab2/zad1/main.c,
-- Signals/Child what lab2/zad2/child.c does with its mode, Signals/Pair the parent and the child of
-- lab2/zad2 and lab2/zad3, with the functions of the shared library, and Signals/Pause the two step
-- by step, with SIGUSR2 at any point of the child's start and of its loop around pause(). Which calls
-- of the kernel succeed is a parameter. The loop has twenty rounds, by structural recursion.
--
-- Robot (lab6): Robot/Buffer is the circular buffer of lab6/src/common.c, Robot/Time its clock
-- functions, over a parameter for the machine's `double` about which nothing is assumed.
-- Robot/Threads and Robot/System are the seven threads of lab6/src/program3.c and its handler of
-- SIGINT, a call or an atomic operation at a time, in any order. Robot/Shutdown looks closer at one
-- thread in `buffer_pop`, with the mutex and the condition variable, which wakes nobody without a
-- signal or a broadcast, and Robot/Priority is `set_thread_priority`. Robot/Level1 is
-- lab6/src/program1.c, with its semaphores, its slot of one pair, and the end of `main`; Robot/Level2
-- is lab6/src/program2.c, which shares the calls of level 3 and adds the counts that `main` prints,
-- in 32 bits (the frame numbers and counters of the other levels are unbounded).
-- Of the files only the pairs that the image writers save, the states that the loggers write and the
-- counts of the final report are there.
--
-- Http (lab7): Http/Server is lab7/src/server/main.c: its requests, an iteration of its loop, its
-- start and its end; Http/Client is lab7/src/client/main.c; Http/Decimal is "%d" as snprintf prints
-- it and sscanf reads it (printing n goes on n + 1 units of fuel, more than n has digits).
-- Arithmetic on `int` out of its range, which C leaves open, is a parameter with the law that sums
-- in range are exact. The text that recv brings is cut to 1023 bytes.
--
-- Chat (lab4): Chat/Server is the table of clients of lab4/src/server.c and what it does with a
-- message; Chat/Clients states it over the list of clients; Chat/Client is how lab4/src/client.c
-- connects, what it sends and what its child shows; Chat/Handshake has the two together. Queues go by
-- their names; which of them open is part of the events, and all of them have room. Chat/Queues is
-- the server's loop over queues of at most MAX_MSG = 10 messages, a call at a time, in any order with
-- the clients' reading (Chat/Queues/Delivered counts the messages of one client, Chat/Queues/Rounds
-- follows a whole round, Chat/Queues/Departed is about a client that has left).
--
-- Forks (lab1): Forks/Strtol reads the numbers of the command lines, Forks/Counter is main.c and
-- main_vfork.c of lab1/zad1, Forks/Spawn the launchers of lab1/zad2 and lab1/zad3 with the child of
-- zad2, where a failing fork or execl is an outcome, and Forks/Locked the children of lab1/zad3, a
-- call at a time in any order (Blocks for the file at any moment, Finish and Ends for their end).
-- Output goes to a terminal; what several processes print is a list for each.
--
-- Pipes (lab3): Pipes/Integrator is the loop of lab3/zad1/integrator.c over the parameter for
-- `double`, with fuel (a measure that each step lowers gives enough of it), Pipes/Ends and
-- Pipes/Slices are lab3/zad1/main.c (who holds which end of the pipes, and what the parent reads and
-- prints, on a terminal, so that no child inherits lines in a buffer), and Pipes/Fifo is program1.c
-- and program2.c of lab3/zad2 and what they tell each other.
--
-- Prelude holds what the parts share: numbers, lists, tests, integers, rings and the parameter for
-- `double`. The modules called Tests, SetupTests, KillTests, PauseTests, QueueTests and LevelTests
-- apply the theorems to concrete inputs.
--
-- Not modelled: the times that lab3/zad1 measures, the build files and the scripts. The priorities of
-- threads count for the warning about them only, since the order of the threads' calls is arbitrary.
pub mod Prelude
pub mod Tasks
pub mod Signals
pub mod Robot
pub mod Http
pub mod Chat
pub mod Forks
pub mod Pipes
